-- ===== src/Approval/Contract/History.antt =====
-- The history of decisions in the approval section of a workflow
-- (backend/app/approvals/service.py).
use graduation_project.Prelude.{
  ◌≡◌, refl, true, Option, none, some, List, [], ◌∷◌, ◌++◌, Bool, All, All-append, arith,
  Option-cases, inl, inr,
}
use graduation_project.Json.{Json, Items, Dict, nil, cons, array, get}
use mathlib.Core.Path.{subst}
use graduation_project.Json.Laws.{get-put}
use graduation_project.Schema.Approval.{ApprovalRecord}
use graduation_project.Store.{Platform}
use graduation_project.Approval.Payload.{
  validate_records, from_raw, dump_records, approval_records_from_payload, build_approval_payload,
}
use graduation_project.Approval.Service.{is_valid_record}

module _ (P : Platform) where
  abbrev pub IsReadBack : ApprovalRecord → Type 0
  IsReadBack r = P.validate_record (P.dump_record r) ≡ some r

  -- What pydantic's documentation promises of records: the dump of one that satisfies its fields'
  -- constraints is read back, and so is the dump of one that was itself read.
  pub record ReadsRecords : Type 0 where
    pub reads_valid : (r : ApprovalRecord) → is_valid_record r ≡ true → IsReadBack r
    pub reads_again : (j : Json) (r : ApprovalRecord) → P.validate_record j ≡ some r → IsReadBack r

  records_back :
      (rs : List ApprovalRecord)
      → All IsReadBack rs
      → validate_records P (dump_records P rs) ≡ some rs
  unfolding validate_records dump_records
  records_back [] h = refl
  records_back (r ∷ rs) h = rw (h.0, records_back rs h.1) refl

  validated :
      ReadsRecords
      → (xs : Items) (rs : List ApprovalRecord) → validate_records P xs ≡ some rs
      → All IsReadBack rs
  unfolding validate_records
  validated law nil rs h = ground arith
  validated law (cons x xs) rs h = elim (Option-cases (P.validate_record x)) [
    | inl bad ↦ cc (rw bad at h)
    | inr (r, good) ↦ elim (Option-cases (validate_records P xs)) [
      | inl bad ↦ cc (rw (good, bad) at h)
      | inr (tail, rest) ↦
          let e : r ∷ tail ≡ rs = cc (rw (good, rest) at h) in
          subst (All IsReadBack) e (law.reads_again x r good, validated law xs tail rest)
    ]
  ]

  reading :
      ReadsRecords
      → (o : Option Json) (rs : List ApprovalRecord) → from_raw P o ≡ some rs
      → All IsReadBack rs
  reading law (some (array xs)) rs h = validated law xs rs h
  reading law none rs h = ground arith
  reading law (some x) rs h = ground arith

  from_payload :
      ReadsRecords
      → (d : Dict) (rs : List ApprovalRecord) → approval_records_from_payload P d ≡ some rs
      → All IsReadBack rs
  unfolding approval_records_from_payload
  from_payload law d rs h = reading law (get "approval_history" d) rs h

  -- Payloads from which a history was read, extended by a valid record, are read back as the
  -- history with that record at its end.
  pub approval_records-build :
      ReadsRecords
      → (d : Dict) (before : List ApprovalRecord) (r : ApprovalRecord) (can_resume : Bool)
      → approval_records_from_payload P d ≡ some before
      → is_valid_record r ≡ true
      → approval_records_from_payload P (build_approval_payload P d before r can_resume)
        ≡ some (before ++ r ∷ [])
  unfolding approval_records_from_payload build_approval_payload
  approval_records-build law d before r can_resume h valid = simp (
    get-put,
    records_back (before ++ r ∷ []) (
        All-append IsReadBack before (r ∷ []) (from_payload law d before h)
          (law.reads_valid r valid, tt)),
  )
