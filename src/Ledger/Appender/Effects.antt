-- ===== src/Ledger/Appender/Effects.antt =====
-- What `AppendBatch` of internal/ledger/ledger.go changes when it fails.
use agent_memory_system.Prelude.{
  true, false, Option, List, [], ◌∷◌, ◌≡◌, refl, ◌∙◌, ◌⊎◌, inl, inr, arith,
}
use agent_memory_system.Prelude.Result.{ok, err, fail_if-then, Result-cases}
use agent_memory_system.Ledger.Types.{BlobRef, Event, Codec}
use agent_memory_system.Ledger.Appender.{
  AppendError, unusable, appender_closed, Io, Writer, Batch, commit, prepare, append_batch,
}

module _ {B : Type 0} (c : Codec) (verify_blob : BlobRef → Option B) where
  commit-err :
      (io : Io) (w : Writer) (b : Batch) {w' : Writer} {e : AppendError B}
      → commit io w b ≡ (w', err e)
      → (w'.appender.failed ≡ true)
        × (w'.appender.closed ≡ w.appender.closed)
        × (w'.appender.previous ≡ w.appender.previous)
  unfolding commit
  commit-err io w b h = ground arith

  prepare-usable :
      (w : Writer) (events : List Event) {b : Batch}
      → prepare c verify_blob w events ≡ ok b
      → w.appender.closed ≡ false
  unfolding prepare
  prepare-usable w events h = (fail_if-then w.appender.closed appender_closed _ h).0

  commit-closed :
      (io : Io) (w : Writer) (b : Batch)
      → (commit {B = B} io w b).0.appender.closed ≡ w.appender.closed
  unfolding commit
  commit-closed io w b = ground arith

  pub append_batch-closed :
      (io : Io) (w : Writer) (events : List Event)
      → (append_batch c verify_blob io w events).0.appender.closed ≡ w.appender.closed
  unfolding append_batch
  append_batch-closed io w [] = refl
  append_batch-closed io w (x ∷ xs) = elim (Result-cases (prepare c verify_blob w (x ∷ xs))) [
    | inr (e, p) ↦ rw p
    | inl (b, p) ↦ rw p (commit-closed io w b)
  ]

  pub append_batch-unusable :
      (io : Io) (w : Writer) (events : List Event)
      → w.appender.closed ≡ false
      → w.appender.failed ≡ true
      → append_batch c verify_blob io w events ≡ (w, err unusable)
  unfolding append_batch prepare
  append_batch-unusable io w [] p q = rw (p, q)
  append_batch-unusable io w (x ∷ xs) p q = rw (p, q)

  pub append_batch-err :
      (io : Io) (w : Writer) (events : List Event) {w' : Writer} {e : AppendError B}
      → append_batch c verify_blob io w events ≡ (w', err e)
      → (w' ≡ w)
        ⊎ ((w'.appender.failed ≡ true)
            × (w'.appender.closed ≡ false)
            × (w'.appender.previous ≡ w.appender.previous))
  unfolding append_batch
  append_batch-err io w [] h = inl (ground arith)
  append_batch-err io w (x ∷ xs) {w'} {e} h =
      elim (Result-cases (prepare c verify_blob w (x ∷ xs))) [
        | inr (f, p) ↦ inl (cc (rw p at h))
        | inl (b, p) ↦
            let (failed, closed, previous) = commit-err io w b (rw p at h) in
            inr (failed, closed ∙ prepare-usable w (x ∷ xs) p, previous)
      ]

  -- A batch that fails leaves the file and the appender as they were, or it leaves the tail hash and
  -- makes the appender refuse every later batch, which then changes nothing.
  pub append_batch_failure :
      (io : Io) (w : Writer) (events : List Event) {w' : Writer} {e : AppendError B}
      → append_batch c verify_blob io w events ≡ (w', err e)
      → (w' ≡ w)
        ⊎ ((w'.appender.previous ≡ w.appender.previous)
            × ((later : Io) (more : List Event)
                → append_batch c verify_blob later w' more ≡ (w', err unusable)))
  append_batch_failure io w events {w'} h = elim (append_batch-err io w events h) [
    | inl same ↦ inl same
    | inr (failed, closed, previous) ↦
        inr (previous, λ later more. append_batch-unusable later w' more closed failed)
  ]
