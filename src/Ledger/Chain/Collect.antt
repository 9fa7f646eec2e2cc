-- ===== src/Ledger/Chain/Collect.antt =====
-- `visitRecords` of internal/ledger/ledger.go with a visitor that keeps what it is given.
use agent_memory_system.Prelude.{
  ℕ, String, false, none, List, [], ◌∷◌, ◌++◌, ◌≡◌, ap, ◌∙◌, append_assoc, append-nil,
}
use agent_memory_system.Prelude.Result.{ok}
use agent_memory_system.Ledger.Types.{Record, Codec}
use agent_memory_system.Ledger.Lines.{split_lines}
use agent_memory_system.Ledger.Chain.{visit_records, readable, Visitor}
use agent_memory_system.Ledger.Chain.Verified.{IsChain, Decodes, visit_all, visit_records_exact}

-- A visitor that keeps the records in order.
abbrev pub collect : {E : Type 0} → Visitor (List Record) E
collect r rs = (rs ++ r ∷ [], none)

visit_all-collect :
    {E : Type 0} (rs seen : List Record) → visit_all {E = E} collect rs seen ≡ (seen ++ rs, none)
unfolding visit_all
visit_all-collect [] seen = rw append-nil
visit_all-collect (r ∷ rs) seen =
    visit_all-collect rs (seen ++ r ∷ [])
    ∙ ap (λ (l : List Record). (l, none)) (append_assoc seen (r ∷ []) rs)

-- The ledger file holds these records, behind which the next one is sealed with this hash.
abbrev pub Holds : Codec → List ℕ → List Record → String → Type 0
Holds c content rs last = Decodes c (split_lines content) rs × IsChain c "" rs last

module _ {E : Type 0} (c : Codec) (content : List ℕ) (rs : List Record) (last : String) where
  pub visit-Holds :
      visit_records {E = E} c collect (readable content false) [] ≡ (rs, ok last)
      → Holds c content rs last
  visit-Holds h =
      let (qs, decoded, chain, all) = (visit_records_exact c collect content [] rs last).0 h in
      let same : qs ≡ rs = cc (visit_all-collect {E = E} qs [], all) in
      (rw same at decoded, rw same at chain)

  pub Holds-visit :
      Holds c content rs last
      → visit_records {E = E} c collect (readable content false) [] ≡ (rs, ok last)
  Holds-visit h =
      (visit_records_exact c collect content [] rs last).1 (rs, h.0, h.1, visit_all-collect rs [])
