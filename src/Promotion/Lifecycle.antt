-- ===== src/Promotion/Lifecycle.antt =====
-- The lifecycle of a memory that `replay` of internal/promotion/ledger.go admits.
use agent_memory_system.Prelude.{
  ℕ, suc, String, Bool, true, not, ◌||◌, Option, none, some, List, [], ◌∷◌, ◌++◌, ◌≡◌, refl, sym,
  subst, inl, inr, arith,
}
use agent_memory_system.Prelude.Tests.{string_eq, nat_eq, ◌==◌, ◌!=◌, if◌then◌else◌, Bool-cases}
use agent_memory_system.Prelude.Lists.{length, length-append, elem}
use agent_memory_system.Prelude.Result.{
  ok, wrap, fail_if-then, then-eq-ok, bind-eq-ok, fail_if-eq-ok, ok-injective, Result-cases,
}
use agent_memory_system.Prelude.Text.{trim_bytes}
use agent_memory_system.Ledger.Lines.{split_lines, ends_line}
use agent_memory_system.Ledger.Chain.{LedgerFile, absent, unopenable, readable}
use agent_memory_system.Promotion.Types.{
  Action, promote, supersede, revoke, other_action, is_active, is_revoked, scope_eq, Revision,
  Record, Services,
}
use agent_memory_system.Promotion.Replay.{
  State, empty_state, find_memory, put_memory, count_of, count_up, check_transition, record_step,
  validate_record, replay_record, replay_line, replay_lines, replay, invalid_record, decoded,
}

-- The revisions of a memory, from its promotion to its last one.
pub data Chain : List Revision → Revision → Type 0 where
  promoted :
      (r : Revision)
      → r.action ≡ promote
      → r.parent_revision_id ≡ ""
      → is_active r.status ≡ true
      → Chain (r ∷ []) r
  superseded :
      (rs : List Revision) (c r : Revision)
      → Chain rs c
      → is_active c.status ≡ true
      → r.action ≡ supersede
      → r.parent_revision_id ≡ c.revision_id
      → is_active r.status ≡ true
      → Chain (rs ++ r ∷ []) r
  ended :
      (rs : List Revision) (c r : Revision)
      → Chain rs c
      → is_active c.status ≡ true
      → r.action ≡ revoke
      → r.parent_revision_id ≡ c.revision_id
      → is_revoked r.status ≡ true
      → r.kind ≡ c.kind
      → scope_eq r.scope c.scope ≡ true
      → Chain (rs ++ r ∷ []) r

-- The revisions of one memory in the history.
unfoldable pub revisions_of : String → List Record → List Revision
revisions_of id [] = []
revisions_of id (r ∷ rs) =
    let rest = revisions_of id rs in
    if r.event.revision.memory_id == id then r.event.revision ∷ rest else rest

-- What the state has for a memory, given the memory's revisions.
abbrev pub Stands : List Revision → Option Revision → Type 0
Stands rs none = rs ≡ []
Stands rs (some c) = Chain rs c

-- `current`, `counts` and `records` agree with the history.
abbrev pub IsConsistent : State → Type 0
IsConsistent s =
    (id : String)
    → Stands (revisions_of id s.history) (find_memory id s.current)
      × (count_of id s.counts ≡ length (revisions_of id s.history))

find_memory-put :
    (id : String) (r : Revision) (rs : List Revision)
    → find_memory id (put_memory r rs) ≡ (if r.memory_id == id then some r else find_memory id rs)
unfolding find_memory put_memory
find_memory-put id r [] = refl
find_memory-put id r (s ∷ ss) = elim (Bool-cases (s.memory_id == r.memory_id)) [
  | inl e ↦ rw e (
      ground (
        arith,
        string_eq.same_iff s.memory_id r.memory_id,
        string_eq.same_iff s.memory_id id,
        string_eq.same_iff r.memory_id id,
      ))
  | inr e ↦
      let next = find_memory-put id r ss in
      rw (e, next)
        (ground (
          arith,
          string_eq.same_iff s.memory_id r.memory_id,
          string_eq.same_iff s.memory_id id,
          string_eq.same_iff r.memory_id id,
        ))
]

count_of-up :
    (id k : String) (counts : List (String × ℕ))
    → count_of id (count_up k counts)
      ≡ (if k == id then suc (count_of id counts) else count_of id counts)
unfolding count_of count_up
count_of-up id k [] = refl
count_of-up id k ((l, n) ∷ counts) = elim (Bool-cases (l == k)) [
  | inl e ↦
      rw e
        (ground (arith, string_eq.same_iff l k, string_eq.same_iff l id, string_eq.same_iff k id))
  | inr e ↦
      let next = count_of-up id k counts in
      rw (e, next)
        (ground (arith, string_eq.same_iff l k, string_eq.same_iff l id, string_eq.same_iff k id))
]

revisions_of-snoc :
    (id : String) (h : List Record) (r : Record)
    → revisions_of id (h ++ r ∷ []) ≡ (
        if r.event.revision.memory_id == id
        then revisions_of id h ++ r.event.revision ∷ []
        else revisions_of id h)
unfolding revisions_of
revisions_of-snoc id [] r = refl
revisions_of-snoc id (q ∷ qs) r = elim (Bool-cases (q.event.revision.memory_id == id)) [
  | inl e ↦ elim (Bool-cases (r.event.revision.memory_id == id)) [
    | inl k ↦ rw (e, revisions_of-snoc id qs r, k) refl
    | inr k ↦ rw (e, revisions_of-snoc id qs r, k) refl
  ]
  | inr e ↦ rw (e, revisions_of-snoc id qs r) refl
]

-- A transition that the switch admits lengthens the chain.
check_transition-Chain :
    (n : ℕ) (rs : List Revision) (c : Option Revision) (r : Revision) (action : Action)
    → r.action ≡ action
    → check_transition n c r action ≡ ok tt
    → Stands rs c
    → Chain (rs ++ r ∷ []) r
unfolding check_transition
check_transition-Chain n rs (some c) r promote a h s = cc h
check_transition-Chain n rs none r promote a h s =
    let test = fail_if-eq-ok (r.parent_revision_id != "" || not (is_active r.status)) _ h in
    subst (λ l. Chain (l ++ r ∷ []) r) (sym s)
      (promoted r a (ground (arith, string_eq.same_iff r.parent_revision_id "")) (ground arith))
check_transition-Chain n rs none r supersede a h s = cc h
check_transition-Chain n rs (some c) r supersede a h s =
    let test = fail_if-eq-ok _ _ h in
    superseded rs c r s (ground arith) a
      (ground (arith, string_eq.same_iff r.parent_revision_id c.revision_id)) (ground arith)
check_transition-Chain n rs none r revoke a h s = cc h
check_transition-Chain n rs (some c) r revoke a h s =
    let test = fail_if-eq-ok _ _ h in
    ended rs c r s (ground arith) a
      (ground (arith, string_eq.same_iff r.parent_revision_id c.revision_id)) (ground arith)
      (ground (arith, string_eq.same_iff r.kind c.kind)) (ground arith)
check_transition-Chain n rs none r (other_action x) a h s = cc h
check_transition-Chain n rs (some c) r (other_action x) a h s = cc h

module _ (sv : Services) where
  record_step-IsConsistent :
      (s : State) (n : ℕ) (r : Record)
      → check_transition n
          (find_memory r.event.revision.memory_id s.current)
          r.event.revision
          r.event.revision.action
        ≡ ok tt
      → IsConsistent s
      → IsConsistent (record_step s r)
  unfolding record_step
  record_step-IsConsistent s n r h known id =
      let v = r.event.revision in
      let (stands, counted) = known id in
      elim (Bool-cases (v.memory_id == id)) [
        | inr e ↦ (
          rw (revisions_of-snoc id s.history r, find_memory-put id v s.current, e) stands,
          rw (revisions_of-snoc id s.history r, count_of-up id v.memory_id s.counts, e) counted,
        )
        | inl e ↦
            let same = (string_eq.same_iff v.memory_id id).0 e in
            let longer =
              subst (λ i. Chain (revisions_of i s.history ++ v ∷ []) v) same
                (check_transition-Chain n _ _ v v.action refl h (known v.memory_id).0) in
            (
              rw (revisions_of-snoc id s.history r, find_memory-put id v s.current, e) longer,
              rw (revisions_of-snoc id s.history r, count_of-up id v.memory_id s.counts, e)
                  (omega (arith, counted, length-append (revisions_of id s.history) (v ∷ []))),
            )
      ]

  replay_record-IsConsistent :
      (s s' : State) (n : ℕ) (r : Record)
      → replay_record sv s n r ≡ ok s'
      → IsConsistent s
      → IsConsistent s'
  unfolding replay_record
  replay_record-IsConsistent s s' n r h known =
      let (valid, h1) =
        then-eq-ok (wrap (invalid_record n) (validate_record sv r s.next s.last_hash)) _ h in
      let (fresh, h2) = fail_if-then (elem r.event.revision.revision_id s.revisions) _ _ h1 in
      let (moved, h3) = then-eq-ok _ _ h2 in
      subst IsConsistent (ok-injective h3) (record_step-IsConsistent s n r moved known)

  replay_lines-IsConsistent :
      (fault : Bool) (s : State) (n : ℕ) (lines : List (List ℕ))
      → IsConsistent s
      → IsConsistent (replay_lines sv fault s n lines).0
  unfolding replay_lines replay_line
  replay_lines-IsConsistent fault s n [] known = known
  replay_lines-IsConsistent fault s n (line ∷ lines) known =
      elim (Result-cases (replay_line sv s (suc n) line)) [
        | inr (e, failed) ↦ rw (failed, replay_lines) known
        | inl (s', passed) ↦
            let (whole, h1) = fail_if-then (not (ends_line line)) _ _ passed in
            let (r, parsed, h2) =
              bind-eq-ok (decoded sv (suc n) (sv.parse_record (trim_bytes line))) _ h1 in
            rw (passed, replay_lines)
              (replay_lines-IsConsistent fault s' (suc n) lines
                (replay_record-IsConsistent s s' (suc n) r h2 known))
      ]

  -- Whatever the ledger holds and wherever replay stops, the current revision of each memory is
  -- the last of a chain that a promotion starts, supersessions lengthen, each naming its
  -- parent, and nothing follows a revocation; a memory without one has no revision in the
  -- history, and `counts` has the chain's length.
  pub replay-IsConsistent : (file : LedgerFile) → IsConsistent (replay sv file).0
  unfolding replay revisions_of count_of find_memory
  replay-IsConsistent absent id = (refl, refl)
  replay-IsConsistent unopenable id = (refl, refl)
  replay-IsConsistent (readable content fault) id =
      replay_lines-IsConsistent fault empty_state 0 (split_lines content) (λ i. (refl, refl)) id
