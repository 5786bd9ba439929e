-- ===== src/Workflows/Sample/Fields.antt =====
-- What the fields of a dumped state or record read, with the defaults of absent keys.
use Prim.Native.String
use graduation_project.Prelude.{
  ℕ, zero, suc, String, ◌≡◌, refl, ap, ◌∙◌, Bool, false, Option, none, some, List, [], ◌∷◌, ◌==◌,
  if◌then◌else◌,
}
use graduation_project.Json.{
  Json, Items, Dict, null, bool, number, text, array, object, nil, cons, empty, entry, get,
}
use graduation_project.Lifecycle.{WorkflowStatus, status_value, created, workflow_statuses}
use graduation_project.Schema.{Time, WorkflowError}
use graduation_project.Workflows.Audit.{optional_text, texts}
use graduation_project.Schema.Approval.{
  ApprovalDecisionType, approve, reject, request_changes, decision_value,
}

-- n tally marks
unfoldable pub tally : ℕ → String
tally zero = ""
tally (suc n) = String.◌∷◌ "i" (tally n)

pub count-tally : (n : ℕ) → String.count (tally n) ≡ n
unfolding tally
count-tally zero = refl
count-tally (suc n) = String.count.cons _ (tally n) ∙ ap suc (count-tally n)

-- What a field reads, with the schema's default for an absent key.
abbrev pub text_at : Option Json → String
text_at (some (text s)) = s
text_at _ = ""

abbrev pub optional_text_at : Option Json → Option String
optional_text_at (some (text s)) = some s
optional_text_at _ = none

abbrev pub dict_at : Dict → Option Json → Dict
dict_at default (some (object d)) = d
dict_at default _ = default

abbrev pub items_at : Option Json → Items
items_at (some (array xs)) = xs
items_at _ = nil

abbrev pub number_at : Option Json → ℕ
number_at (some (number n)) = n
number_at _ = 0

abbrev pub bool_at : Option Json → Bool
bool_at (some (bool b)) = b
bool_at _ = false

abbrev pub time_at : Option Json → Option Time
time_at (some (text s)) = some (String.count s)
time_at _ = none

abbrev pub dump_time : Option Time → Json
dump_time none = null
dump_time (some t) = text (tally t)

abbrev pub named : String → List WorkflowStatus → WorkflowStatus
named s [] = created
named s (st ∷ sts) = if status_value st == s then st else named s sts

abbrev pub status_at : Option Json → WorkflowStatus
status_at (some (text s)) = named s workflow_statuses
status_at _ = created

abbrev pub dump_error : Option WorkflowError → Json
dump_error none = null
dump_error (some e) = object (
    entry "code" (text e.code) (
      entry "message" (text e.message) (
        entry "failed_step" (optional_text e.failed_step)
          (entry "retryable" (bool e.retryable) (entry "details" (object e.details) empty)))))

abbrev pub error_at : Option Json → Option WorkflowError
error_at (some (object d)) = some (record {
  code = text_at (get "code" d);
  message = text_at (get "message" d);
  failed_step = optional_text_at (get "failed_step" d);
  retryable = bool_at (get "retryable" d);
  details = dict_at empty (get "details" d);
})
error_at _ = none

pub optional_text-back : (o : Option String) → optional_text_at (some (optional_text o)) ≡ o
optional_text-back none = refl
optional_text-back (some s) = refl

pub status-back : (st : WorkflowStatus) → status_at (some (text (status_value st))) ≡ st
status-back created = refl
status-back st = refl

pub error-back : (o : Option WorkflowError) → error_at (some (dump_error o)) ≡ o
error-back none = refl
error-back (some e) = rw (optional_text-back e.failed_step) refl

pub time-back : (t : Time) → time_at (some (text (tally t))) ≡ some t
time-back t = ap some (count-tally t)

abbrev pub decision_at : Option Json → ApprovalDecisionType
decision_at (some (text s)) =
    if s == "approve" then approve else if s == "reject" then reject else request_changes
decision_at _ = request_changes

abbrev pub dump_status : Option WorkflowStatus → Json
dump_status none = null
dump_status (some st) = text (status_value st)

abbrev pub optional_status_at : Option Json → Option WorkflowStatus
optional_status_at (some (text s)) = some (named s workflow_statuses)
optional_status_at _ = none

abbrev pub texts_in : Items → List String
texts_in nil = []
texts_in (cons x xs) = text_at (some x) ∷ texts_in xs

abbrev pub texts_at : Option Json → List String
texts_at (some (array xs)) = texts_in xs
texts_at _ = []

pub decision-back : (d : ApprovalDecisionType) → decision_at (some (text (decision_value d))) ≡ d
decision-back approve = refl
decision-back d = refl

pub texts-back : (ss : List String) → texts_in (texts ss) ≡ ss
texts-back [] = refl
texts-back (s ∷ ss) = ap (λ ts. s ∷ ts) (texts-back ss)

pub next_status-back : (o : Option WorkflowStatus) → optional_status_at (some (dump_status o)) ≡ o
next_status-back none = refl
next_status-back (some st) = ap some (status-back st)
