-- ===== src/Retrieval/Tests.antt =====
-- The theorems on internal/retrieval at a concrete search.
use agent_memory_system.Prelude.{
  ℕ, zero, suc, String, true, false, List, [], ◌∷◌, ◌++◌, some, map, ◌≡◌, ◌≢◌, refl, sym, inr, ◌⊎◌,
  arith,
}
use agent_memory_system.Prelude.Tests.{some-injective, string_eq}
use agent_memory_system.Prelude.Int.{pos}
use agent_memory_system.Prelude.Lists.{All, elem}
use agent_memory_system.Prelude.Result.{ok, err}
use agent_memory_system.Prelude.Result as Outcome
use agent_memory_system.Prelude.Text.{runes, is_blank}
use agent_memory_system.Ledger.Types.{Event}
use agent_memory_system.Retrieval.Types.{Request, Receipt}
use agent_memory_system.Retrieval.Normalize.{normalize_request, with_defaults, bad_selector}
use agent_memory_system.Retrieval.Normalized.{
  IsWithin, normalize_request_once, normalize_request-IsWithin,
}
use agent_memory_system.Retrieval.Sets.{
  sorted_unique, is_sorted_unique, sorted_unique-is_sorted_unique,
}
use agent_memory_system.Retrieval.Search.{
  AppendError, writer_locked, append_evidence_with_retry, SearchError, fill_result, search,
  make_receipt, receipt_event,
}
use agent_memory_system.Retrieval.Receipts.{validate_receipt, is_normal}
use agent_memory_system.Retrieval.Rank.{rank_query}
use agent_memory_system.Retrieval.Selected.{IsBounded, accounted, rank_query-IsBounded}
use agent_memory_system.Retrieval.Accepted.{search-validate_receipt}
use agent_memory_system.Retrieval.Retry.{
  free, locked, Attempts, append_evidence_with_retry-Attempts, append_evidence_with_retry_succeeds,
}
use agent_memory_system.Retrieval.Causes.{
  Entry, Entries, find_event, parents_of, answer, out_of_fuel, event_descends_from,
}
use agent_memory_system.Retrieval.Descent.{
  Descends, itself, parent, event_descends_from_ends, event_descends_from-Descends,
}
use agent_memory_system.Retrieval.Reached.{event_descends_from_complete}
use agent_memory_system.Retrieval.Render.{escape_memory_text, render_bounded_context}
use agent_memory_system.Retrieval.Rendered.{
  IsRendered, render_bounded_context-IsRendered, escape_memory_text-All,
}
use agent_memory_system.Retrieval.Demo.{
  demo_unicode, demo_unicode-UnicodeLaws, demo_services, demo_digests, demo_io, demo_request,
  demo_loaded,
}

-- The request as normalizeRequest returns it.
abbrev demo_normal : Request
unfolding with_defaults
demo_normal = with_defaults demo_request

demo_normalized : normalize_request demo_unicode demo_request ≡ ok demo_normal
unfolding normalize_request
demo_normalized = refl

abbrev demo_receipt : Receipt
unfolding make_receipt
demo_receipt = make_receipt demo_services demo_io demo_normal "/m" "retrieval-x" (b'{' ∷ b'}' ∷ [])

abbrev demo_event : Event
unfolding receipt_event
demo_event = receipt_event demo_services demo_io demo_receipt "{}" demo_normal.context

demo_searched : search demo_services demo_io demo_request ≡ ok (demo_receipt, demo_event)
unfolding search
demo_searched = refl

search-validate_receipt_example : validate_receipt demo_services demo_event demo_receipt ≡ []
search-validate_receipt_example =
    search-validate_receipt demo_services demo_unicode-UnicodeLaws demo_digests demo_io demo_request
      demo_receipt demo_event (λ root h. rw (sym (some-injective h)) refl) demo_loaded (inr refl)
      demo_searched

-- Both memories match with the same score: the smaller id comes first, the other exceeds the limit.
demo_selected :
    (map (λ m. m.text) demo_receipt.result.selected ≡ "use go" ∷ [])
    × (demo_receipt.result.exclusions.result_limit ≡ pos 1)
unfolding fill_result demo_receipt demo_normal
demo_selected = (refl, refl)

normalize_request_once_example : normalize_request demo_unicode demo_normal ≡ ok demo_normal
normalize_request_once_example =
    normalize_request_once demo_unicode demo_request demo_normal demo_normalized

normalize_request-IsWithin_example :
    (bad_selector demo_normal ≡ false)
    × IsWithin demo_normal.limit 20
    × IsWithin demo_normal.token_budget 4096
    × IsWithin demo_normal.byte_budget 65536
normalize_request-IsWithin_example =
    normalize_request-IsWithin demo_unicode demo_request demo_normal demo_normalized

rank_query-IsBounded_example :
    IsBounded demo_normal (rank_query demo_unicode demo_normal demo_io.loaded.revisions)
    × (accounted (rank_query demo_unicode demo_normal demo_io.loaded.revisions) ≡ 2)
unfolding demo_normal
rank_query-IsBounded_example =
    rank_query-IsBounded demo_unicode demo_normal demo_io.loaded.revisions (refl, refl, refl)

sorted_unique-is_sorted_unique_example :
    is_sorted_unique (sorted_unique ("b" ∷ "a" ∷ "b" ∷ [])) ≡ true
unfolding is_blank
sorted_unique-is_sorted_unique_example =
    sorted_unique-is_sorted_unique ("b" ∷ "a" ∷ "b" ∷ []) (refl, (refl, (refl, tt)))

-- A store whose lock is held for two attempts: the state is how many are left.
abbrev held : ℕ → ℕ × Outcome.Result AppendError (Unit {0})
held zero = (0, ok tt)
held (suc n) = (n, err writer_locked)

append_evidence_with_retry-Attempts_example :
    Attempts held 6 2 (append_evidence_with_retry held 2).0 (append_evidence_with_retry held 2).1
append_evidence_with_retry-Attempts_example = append_evidence_with_retry-Attempts held 2

append_evidence_with_retry_succeeds_example : append_evidence_with_retry held 2 ≡ (0, ok tt)
append_evidence_with_retry_succeeds_example =
    append_evidence_with_retry_succeeds held 2 2 0 0 (omega arith) (locked refl (locked refl free))
      refl

-- The event of the search, and a tool result that it caused.
abbrev caused : Event
caused = record demo_event {
  event_id = "tool-1";
  causality =
      some (record { parent_event_ids = "retrieval-x" ∷ []; call_id = ""; compaction_id = "" });
}

abbrev later : Entry
later = record { event = caused; index = 2 }

abbrev earlier : Entry
earlier = record { event = demo_event; index = 1 }

abbrev demo_entries : Entries
demo_entries = later ∷ earlier ∷ []

demo_descends : event_descends_from demo_entries "tool-1" "retrieval-x" ≡ answer true
unfolding event_descends_from demo_event demo_receipt
demo_descends = refl

event_descends_from_ends_example :
    event_descends_from demo_entries "tool-1" "retrieval-x" ≢ out_of_fuel
event_descends_from_ends_example = event_descends_from_ends demo_entries "tool-1" "retrieval-x"

event_descends_from-Descends_example : Descends demo_entries "tool-1" "retrieval-x"
event_descends_from-Descends_example =
    event_descends_from-Descends demo_entries "tool-1" "retrieval-x" demo_descends

event_descends_from_complete_example :
    event_descends_from demo_entries "tool-1" "retrieval-x" ≡ answer true
unfolding find_event parents_of elem demo_event demo_receipt
event_descends_from_complete_example =
    event_descends_from_complete demo_entries "tool-1" "retrieval-x" later refl
      (parent later earlier itself refl refl refl (omega arith))

-- `%q` of a text without special characters.
abbrev demo_quote : String → List ℕ
unfolding runes
demo_quote s = (34 ∷ runes s) ++ (34 ∷ [])

render_bounded_context-IsRendered_example :
    (render_bounded_context demo_quote demo_receipt.result demo_normal ≡ ([], []))
    ⊎ IsRendered demo_quote demo_receipt.result demo_normal
        (render_bounded_context demo_quote demo_receipt.result demo_normal).0
        (render_bounded_context demo_quote demo_receipt.result demo_normal).1
render_bounded_context-IsRendered_example =
    render_bounded_context-IsRendered demo_quote demo_receipt.result demo_normal

demo_rendered :
    (render_bounded_context demo_quote demo_receipt.result demo_normal).1
    ≡ map (λ m. m.reference) demo_receipt.result.selected
unfolding render_bounded_context fill_result demo_receipt demo_normal
demo_rendered = refl

escape_memory_text-All_example :
    All (λ c. (c ≢ b'<') × (c ≢ b'>')) (escape_memory_text (b'<' ∷ b'a' ∷ b'>' ∷ []))
escape_memory_text-All_example = escape_memory_text-All (b'<' ∷ b'a' ∷ b'>' ∷ [])

-- A query of a space beside a memory id: normalizeRequest accepts it, and the receipt is refused.
abbrev blank_query : Request
blank_query = record demo_request {
  query = " ";
  memory_id = "memory-aaaaaaaaaaaaaaaaaaaaaaaaaaaaaaaaaaaaaaaaaaaaaaaaaaaaaaaaaaaaaaaa";
}

abbrev issues_of : Outcome.Result SearchError (Receipt × Event) → List String
issues_of (ok (r, e)) = validate_receipt demo_services e r
issues_of (err e) = []

blank_query_refused :
    issues_of (search demo_services demo_io blank_query)
    ≡ "retrieval result exclusion accounting is invalid" ∷ []
unfolding search validate_receipt is_normal
blank_query_refused = refl

-- A memory id of a space beside a query: it is accepted too, the query is not used and nothing is found.
abbrev blank_id : Request
blank_id = record demo_request { memory_id = " " }

blank_id_refused :
    issues_of (search demo_services demo_io blank_id)
    ≡ "retrieval result exclusion accounting is invalid" ∷ []
unfolding search validate_receipt is_normal
blank_id_refused = refl
