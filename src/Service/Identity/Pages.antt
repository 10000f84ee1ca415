-- ===== src/Service/Identity/Pages.antt =====
-- The sizes of the pages that listAgents asks for.
use tesserra.Prelude.{
  ℕ, ◌≤◌, ◌≡◌, refl, Option, none, some, arith, Text, Option-cases, inl, inr, ◌⊎◌,
}
use tesserra.Prelude.Int.{ℤ, pos, negsuc}
use tesserra.Json.{Number, int, fraction, infinite, nan}
use tesserra.Runtime.{Runtime}
use tesserra.Service.Identity.{
  answered, refused, invalid_input, IdentityRepository, IdentityIssuer, page_size, list_agents,
}

module _ (rt : Runtime) (iso : ℤ → Text) {S : Type 0} (identities : IdentityRepository S)
    (issuer : IdentityIssuer S) where
  page_size-bounds :
      (limit : Option Number) (n : ℕ)
      → page_size rt iso identities issuer limit ≡ some n
      → (1 ≤ n) × (n ≤ 100)
  unfolding page_size
  page_size-bounds none n h = ground arith
  page_size-bounds (some (int (pos k))) n h = ground arith
  page_size-bounds (some (int (negsuc k))) n h = cc h
  page_size-bounds (some (fraction b k j)) n h = cc h
  page_size-bounds (some (infinite b)) n h = cc h
  page_size-bounds (some nan) n h = cc h

-- listAgents refuses a limit with INVALID_INPUT, or asks the repository for a page of 1 to 100 records.
pub list_agents-bounds :
    (rt : Runtime) (iso : ℤ → Text) {S : Type 0} (identities : IdentityRepository S)
    (issuer : IdentityIssuer S) (cursor : Option Text) (limit : Option Number) (s : S)
    → (list_agents rt iso identities issuer cursor limit s ≡ refused invalid_input)
      ⊎ ((n : ℕ) × (1 ≤ n)
          × (n ≤ 100)
          × (list_agents rt iso identities issuer cursor limit s
              ≡ answered (identities.list cursor n s)))
unfolding list_agents
list_agents-bounds rt iso identities issuer cursor limit s =
    elim (Option-cases (page_size rt iso identities issuer limit)) [
      | inl e ↦ inl (rw (e, list_agents) refl)
      | inr (n, e) ↦
          let (low, high) = page_size-bounds rt iso identities issuer limit n e in
          inr (n, low, high, rw (e, list_agents) refl)
    ]
