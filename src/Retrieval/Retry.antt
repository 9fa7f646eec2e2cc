-- ===== src/Retrieval/Retry.antt =====
-- `appendEvidenceWithRetry` of internal/retrieval/search.go against a lock that another writer holds.
use agent_memory_system.Prelude.{
  ℕ, zero, suc, ◌<◌, ◌≡◌, refl, arith, inl, inr, ◌⊎◌, ap, sym, subst, ◌∙◌,
}
use agent_memory_system.Prelude.Tests.{nat_eq}
use agent_memory_system.Prelude.Result.{Result, ok, err}
use agent_memory_system.Retrieval.Search.{
  AppendError, writer_locked, append_failed, after_attempt, append_with_retry,
  append_evidence_with_retry,
}

module _ {S : Type 0} (append : S → S × Result AppendError (Unit {0})) where
  -- The first attempts of a run, all of which meet the lock, lead from a state to another.
  pub data LockedFor : ℕ → S → S → Type 0 where
    free : {s : S} → LockedFor 0 s s
    locked :
        {k : ℕ} {s t v : S}
        → append s ≡ (t, err writer_locked)
        → LockedFor k t v
        → LockedFor (suc k) s v

  -- What may happen within a number of attempts.
  pub data Attempts : ℕ → S → S → Result AppendError (Unit {0}) → Type 0 where
    written : {n : ℕ} {s t : S} → append s ≡ (t, ok tt) → Attempts (suc n) s t (ok tt)
    failed :
        {n : ℕ} {s t : S}
        → append s ≡ (t, err append_failed)
        → Attempts (suc n) s t (err append_failed)
    exhausted : {s t : S} → append s ≡ (t, err writer_locked) → Attempts 1 s t (err writer_locked)
    again :
        {n : ℕ} {s t v : S} {o : Result AppendError (Unit {0})}
        → append s ≡ (t, err writer_locked)
        → Attempts (suc n) t v o
        → Attempts (suc (suc n)) s v o

  attempt :
      (n : ℕ) (last : AppendError) (s : S) {p : S × Result AppendError (Unit {0})}
      → append s ≡ p
      → append_with_retry append (suc n) last s ≡ after_attempt n (append_with_retry append n) p
  unfolding append_with_retry
  attempt n last s e = ap (after_attempt n (append_with_retry append n)) e

  outcome_cases :
      (p : S × Result AppendError (Unit {0}))
      → ((t : S) × (p ≡ (t, ok tt)))
        ⊎ (((t : S) × (p ≡ (t, err writer_locked))) ⊎ ((t : S) × (p ≡ (t, err append_failed))))
  outcome_cases (t, ok tt) = inl (t, refl)
  outcome_cases (t, err writer_locked) = inr (inl (t, refl))
  outcome_cases (t, err append_failed) = inr (inr (t, refl))

  attempt-Attempts :
      (n : ℕ) (last : AppendError) (s : S) {p : S × Result AppendError (Unit {0})}
      → append s ≡ p
      → Attempts
          (suc n)
          s
          (after_attempt n (append_with_retry append n) p).0
          (after_attempt n (append_with_retry append n) p).1
      → Attempts
          (suc n)
          s
          (append_with_retry append (suc n) last s).0
          (append_with_retry append (suc n) last s).1
  attempt-Attempts n last s e a =
      subst (λ r. Attempts (suc n) s r.0 r.1) (sym (attempt n last s e)) a

  append_with_retry-Attempts :
      (n : ℕ) (last : AppendError) (s : S)
      → Attempts
          (suc n)
          s
          (append_with_retry append (suc n) last s).0
          (append_with_retry append (suc n) last s).1
  append_with_retry-Attempts zero last s = elim (outcome_cases (append s)) [
    | inl (t, e) ↦ attempt-Attempts zero last s e (written e)
    | inr (inl (t, e)) ↦ attempt-Attempts zero last s e (exhausted e)
    | inr (inr (t, e)) ↦ attempt-Attempts zero last s e (failed e)
  ]
  append_with_retry-Attempts (suc n) last s = elim (outcome_cases (append s)) [
    | inl (t, e) ↦ attempt-Attempts (suc n) last s e (written e)
    | inr (inl (t, e)) ↦
        attempt-Attempts (suc n) last s e (again e (append_with_retry-Attempts n writer_locked t))
    | inr (inr (t, e)) ↦ attempt-Attempts (suc n) last s e (failed e)
  ]

  append_with_retry_succeeds :
      (k n : ℕ) (last : AppendError) (s t v : S)
      → k < n
      → LockedFor k s t
      → append t ≡ (v, ok tt)
      → append_with_retry append n last s ≡ (v, ok tt)
  append_with_retry_succeeds k zero last s t v h l w = absurd (omega arith)
  append_with_retry_succeeds zero (suc n) last s t v h free w = attempt n last s w
  append_with_retry_succeeds (suc k) (suc zero) last s t v h l w = absurd (omega arith)
  append_with_retry_succeeds (suc k) (suc (suc n)) last s t v h (locked {t = m} e l) w =
      attempt (suc n) last s e
      ∙ append_with_retry_succeeds k (suc n) writer_locked m t v (omega arith) l w

-- appendEvidenceWithRetry makes at most six attempts: it ends with the first one that does not meet
-- the writer lock, or with the sixth.
pub append_evidence_with_retry-Attempts :
    {S : Type 0} (append : S → S × Result AppendError (Unit {0})) (s : S)
    → Attempts append 6 s
        (append_evidence_with_retry append s).0
        (append_evidence_with_retry append s).1
unfolding append_evidence_with_retry
append_evidence_with_retry-Attempts append s = append_with_retry-Attempts append 5 append_failed s

-- Where the lock is met by fewer than six attempts and the next one writes, the event is written.
pub append_evidence_with_retry_succeeds :
    {S : Type 0} (append : S → S × Result AppendError (Unit {0})) (k : ℕ) (s t v : S)
    → k < 6
    → LockedFor append k s t
    → append t ≡ (v, ok tt)
    → append_evidence_with_retry append s ≡ (v, ok tt)
unfolding append_evidence_with_retry
append_evidence_with_retry_succeeds append k s t v =
    append_with_retry_succeeds append k 6 append_failed s t v
