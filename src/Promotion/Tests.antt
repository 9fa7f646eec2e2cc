-- ===== src/Promotion/Tests.antt =====
-- The theorems on internal/promotion at concrete stores and requests.
use agent_memory_system.Prelude.{false, [], ◌∷◌, ◌≡◌, refl, ap, sym, List, true}
use agent_memory_system.Prelude.Lists.{elem}
use agent_memory_system.Prelude.Result.{ok}
use agent_memory_system.Ledger.Chain.{LedgerFile, readable}
use agent_memory_system.Promotion.Replay.{empty_state, record_step, replay, replay_record}
use agent_memory_system.Promotion.Requests.{reference_of, request_from_revision}
use agent_memory_system.Promotion.Prepare.{source_of}
use agent_memory_system.Prelude.Tests.{some-injective}
use agent_memory_system.Promotion.Lifecycle.{IsConsistent, replay-IsConsistent}
use agent_memory_system.Promotion.Followed.{prepare_record-replay_record}
use agent_memory_system.Promotion.Reconstructed.{prepare_revision-request_from_revision}
use agent_memory_system.Promotion.Types.{Record}
use agent_memory_system.Promotion.Query.{was_current, find_target}
use agent_memory_system.Promotion.Timeline.{was_current_unique}
use agent_memory_system.Promotion.Apply.{Store, apply}
use agent_memory_system.Promotion.Recorded.{IsText}
use agent_memory_system.Promotion.Outcomes.{Outcome, apply-Outcome}
use agent_memory_system.Promotion.Applied.{apply-replay}
use agent_memory_system.Prelude.{subst, none}
use agent_memory_system.Ledger.Chain.{absent}
use agent_memory_system.Prelude.Tests.{string_eq}
use agent_memory_system.Promotion.Demo.{
  demo_applied, demo-IsText, demo_revision, demo_services, demo_request, demo_io, demo_record,
  demo_event, demo_digest, demo_valid, demo_prepared, demo_made,
}

-- One line, which the services decode as the record of the demo.
abbrev demo_file : LedgerFile
demo_file = readable (b'{' ∷ b'}' ∷ 10 ∷ []) false

replay-IsConsistent_example : IsConsistent (replay demo_services demo_file).0
replay-IsConsistent_example = replay-IsConsistent demo_services demo_file

prepare_record-replay_record_example :
    replay_record demo_services empty_state 1 demo_record ≡ ok (record_step empty_state demo_record)
unfolding elem
prepare_record-replay_record_example =
    prepare_record-replay_record demo_services demo_digest demo_io empty_state demo_request
      demo_record 1 demo_made refl

prepare_revision-request_from_revision_example :
    request_from_revision demo_services demo_event ≡ ok demo_request
prepare_revision-request_from_revision_example =
    prepare_revision-request_from_revision demo_services empty_state "device-1" 5 demo_request
      demo_event (λ c v h. ap (λ w. reference_of (source_of w)) (sym (some-injective h))) demo_valid
      demo_prepared refl refl

abbrev one_record : List Record
one_record = demo_record ∷ []

current_at_6 :
    was_current 6 (find_target demo_revision.memory_id demo_revision.revision_id one_record)
    ≡ ok true
unfolding was_current find_target
current_at_6 = refl

was_current_unique_example : demo_revision.revision_id ≡ demo_revision.revision_id
was_current_unique_example =
    was_current_unique demo_revision.memory_id demo_revision.revision_id demo_revision.revision_id 6
      one_record ((λ own. tt), tt) current_at_6 current_at_6

abbrev empty_store : Store
empty_store = record { ledger = absent; locked = false }

apply-replay_example :
    ((replay demo_services absent).1 ≡ none)
    × (replay demo_services (apply demo_services demo_io empty_store demo_request).0.ledger
        ≡ (record_step (replay demo_services absent).0 demo_record, none))
unfolding replay elem
apply-replay_example =
    apply-replay demo_services demo_digest demo_io empty_store demo_request demo_record
      (λ text h. subst (IsText demo_services demo_record) (some-injective h) demo-IsText) refl
      demo_applied

apply-Outcome_example :
    Outcome demo_services demo_io empty_store demo_request
      (apply demo_services demo_io empty_store demo_request)
apply-Outcome_example = apply-Outcome demo_services demo_digest demo_io demo_request empty_store
