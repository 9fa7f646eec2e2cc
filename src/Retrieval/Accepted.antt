-- ===== src/Retrieval/Accepted.antt =====
-- Every receipt that `Search` records passes `validateReceipt`.
use Prim.Native.String.{◌++◌ as str_append}
use agent_memory_system.Prelude.{
  ℕ, String, true, false, List, [], ◌++◌, some, ◌≡◌, refl, sym, ap, subst, ◌⊎◌,
}
use agent_memory_system.Prelude.Tests.{
  string_eq, nat_eq, ◌==◌, ne_self, unchanged, negated, ◌andalso◌, ◌orelse◌, beq_refl,
}
use agent_memory_system.Prelude.Int.{pos, int_eq, int_leb}
use agent_memory_system.Prelude.Result.{ok}
use agent_memory_system.Prelude.Text.{valid_sha256}
use agent_memory_system.Ledger.Types.{Event}
use agent_memory_system.Retrieval.Types.{Request, Receipt, thread_id_for_context}
use agent_memory_system.Retrieval.Normalize.{normalize_request}
use agent_memory_system.Retrieval.Normalized.{normalize_request_once}
use agent_memory_system.Retrieval.Sets.{sorted_unique}
use agent_memory_system.Retrieval.Receipts.{
  Services, same_request, is_normal, digest_string, envelope_issues, validate_receipt,
  request_bytes,
}
use agent_memory_system.Retrieval.Search.{SearchIo, make_receipt, receipt_event, search}
use agent_memory_system.Retrieval.Selected.{HasRoom}
use agent_memory_system.Retrieval.Lexed.{UnicodeLaws}
use agent_memory_system.Retrieval.Validated.{IsSingle}
use agent_memory_system.Retrieval.Filled.{IsFilled, no_issue, one_issue}
use agent_memory_system.Retrieval.Loaded.{IsLoaded, fill_result-IsFilled}
use agent_memory_system.Retrieval.Searched.{Searched, search-Searched, has_room, single_of}

nothing_left :
    {a b c d : List String} → a ≡ [] → b ≡ [] → c ≡ [] → d ≡ [] → a ++ (b ++ (c ++ d)) ≡ []
nothing_left h i j k = rw (h, i, j, k) refl

module _ (sv : Services) (laws : UnicodeLaws sv.unicode)
    (digest : (input : List ℕ) → valid_sha256 (sv.sha256_hex input) ≡ true) where
  same_request_refl : (q : Request) → same_request q q ≡ true
  unfolding same_request
  same_request_refl q =
      let c = q.context in
      beq_refl q.schema_version
      andalso beq_refl q.query
      andalso beq_refl q.memory_id
      andalso beq_refl c.agent
      andalso beq_refl c.thread_id
      andalso beq_refl c.session_id
      andalso beq_refl c.repository
      andalso beq_refl c.project
      andalso beq_refl c.task
      andalso beq_refl c.channel
      andalso beq_refl q.limit
      andalso beq_refl q.token_budget
      andalso beq_refl q.byte_budget

  is_normal_once : (q : Request) → normalize_request sv.unicode q ≡ ok q → is_normal sv q ≡ true
  unfolding is_normal
  is_normal_once q h = rw (is_normal, h) (same_request_refl q)

  make_receipt-validate_receipt :
      (io : SearchIo) (q : Request) (root id content : String) (encoded : List ℕ)
      → normalize_request sv.unicode q ≡ ok q
      → HasRoom q
      → int_leb (pos 1) q.limit ≡ true
      → IsSingle sv q
      → IsLoaded sv io.loaded
      → (root == "") ≡ false
      → sv.request_json q ≡ some encoded
      → validate_receipt sv
          (receipt_event sv io (make_receipt sv io q root id encoded) content q.context)
          (make_receipt sv io q root id encoded)
        ≡ []
  unfolding validate_receipt make_receipt receipt_event envelope_issues
  make_receipt-validate_receipt io q root id content encoded normal room one single l given json =
      let c = q.context in
      let b = make_receipt sv io q root id encoded in
      let filled = fill_result-IsFilled sv laws digest q id io.roots io.loaded room one single l in
      let source =
        beq_refl c.agent andalso beq_refl (thread_id_for_context c) andalso beq_refl c.session_id in
      let envelope =
        no_issue _ _ _ (refl orelse ne_self id orelse unchanged filled.id orelse refl) (
          no_issue _ _ _ (ne_self io.now orelse ne_self io.now) (
            no_issue _ _ _ (negated source orelse refl) (
              no_issue _ _ _
                (given
                  orelse ne_self (digest_string sv root)
                  orelse ne_self (digest_string sv root))
                (no_issue _ _ _ (negated (is_normal_once q normal)) (
                  one_issue _ _
                    (unchanged (ap (λ j. sv.sha256_hex (request_bytes sv j)) (sym json)))))))) in
      ap sorted_unique
        (nothing_left envelope (filled.result b) filled.matches (filled.accounting b))

  -- The result of a search raises no issue with its request.
  pub search-IsFilled :
      (io : SearchIo) (request : Request) (receipt : Receipt) (event : Event)
      → IsLoaded sv io.loaded
      → (request.query ≡ "") ⊎ (request.memory_id ≡ "")
      → (s : Searched sv io request receipt event)
      → IsFilled sv s.normalized (str_append "retrieval-" s.id) receipt.result
  unfolding make_receipt
  search-IsFilled io request receipt event l single s =
      let (room, one) = has_room sv request s.normalized s.normal in
      subst (λ r. IsFilled sv s.normalized (str_append "retrieval-" s.id) r.result)
        s.recorded_receipt
        (fill_result-IsFilled sv laws digest s.normalized (str_append "retrieval-" s.id) io.roots
          io.loaded room one (single_of sv request s.normalized s.normal single) l)

  -- Where the request names a memory or has a query, and leaves the other empty, the receipt that Search
  -- records passes validateReceipt with the event that records it, whether the search completed or was
  -- blocked. This rests on what the repository promises of its active revisions, on letters, digits and
  -- CJK runes not being white space, and on digests being 64 lowercase digits.
  pub search-validate_receipt :
      (io : SearchIo) (request : Request) (receipt : Receipt) (event : Event)
      → ((root : String) → io.absolute_root ≡ some root → (root == "") ≡ false)
      → IsLoaded sv io.loaded
      → (request.query ≡ "") ⊎ (request.memory_id ≡ "")
      → search sv io request ≡ ok (receipt, event)
      → validate_receipt sv event receipt ≡ []
  search-validate_receipt io request receipt event absolute l single h =
      let s = search-Searched sv io request receipt event h in
      let (room, one) = has_room sv request s.normalized s.normal in
      subst (λ e. validate_receipt sv e receipt ≡ []) s.recorded_event
        (subst
          (λ r. validate_receipt sv (receipt_event sv io r s.content s.normalized.context) r ≡ [])
          s.recorded_receipt
          (make_receipt-validate_receipt io s.normalized s.root (str_append "retrieval-" s.id)
            s.content s.encoded (normalize_request_once sv.unicode request s.normalized s.normal)
            room one (single_of sv request s.normalized s.normal single) l
            (absolute s.root s.has_root) s.json))
