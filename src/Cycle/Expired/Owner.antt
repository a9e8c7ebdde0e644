-- ===== src/Cycle/Expired/Owner.antt =====
-- Which configured domain a host belongs to.
use domain_monitor.Base.{
  ◌≤◌, ◌≡◌, ◌⊎◌, inl, inr, refl, Bool, true, false, not, ◌&&◌, ◌||◌, List, [], ◌∷◌, arith, ltb, leb,
  if◌then◌else◌, any, All, beq_refl,
}
use domain_monitor.Text.{Text, text_beq, text_eq, Unicode, byte_len}
use domain_monitor.Utils.{normalize_domain}
use domain_monitor.Types.Config.{DomainConfig}
use domain_monitor.Cycle.Expired.{covers, longest_owner, configured_domain_owner}

module _ (u : Unicode) where
  longest_owner-byte_len :
      (host : Text) (domains : List DomainConfig) (owner : Text)
      → byte_len owner ≤ byte_len (longest_owner u host domains owner)
  unfolding longest_owner
  longest_owner-byte_len host [] owner = omega arith
  longest_owner-byte_len host (d ∷ domains) owner = ground (
    arith,
    longest_owner-byte_len host domains owner,
    longest_owner-byte_len host domains (normalize_domain u d.domain),
  )

  longest_owner-longest :
      (host : Text) (domains : List DomainConfig) (owner : Text)
      → All
          (λ d.
            (not (covers u host (normalize_domain u d.domain))
              || leb
                  (byte_len (normalize_domain u d.domain))
                  (byte_len (longest_owner u host domains owner)))
            ≡ true)
          domains
  unfolding longest_owner
  longest_owner-longest host [] owner = tt
  longest_owner-longest host (d ∷ domains) owner = (
    ground (
      arith,
      longest_owner-byte_len host domains owner,
      longest_owner-byte_len host domains (normalize_domain u d.domain),
    ),
    longest_owner-longest host domains _,
  )

  -- Whether a name is that of a configured domain, and covers the host.
  abbrev pub is_owner : Text → List DomainConfig → Text → Bool
  is_owner host domains name =
      any (λ d. text_beq (normalize_domain u d.domain) name && covers u host name) domains

  -- One round, for any owner `later` of the rest.
  is_owner_step :
      (host name owner : Text) (taken : Bool) (later : Text → Text) (rest : Text → Bool)
      → (not taken || covers u host name) ≡ true
      → ((o : Text) → (later o ≡ o) ⊎ (rest (later o) ≡ true))
      → let found = later (if taken then name else owner) in
        (found ≡ owner) ⊎ ((text_beq name found && covers u host found || rest found) ≡ true)
  is_owner_step host name owner true later rest h ih = elim (ih name) [
    | inl e ↦ inr (rw e (ground (arith, h, beq_refl name)))
    | inr e ↦ inr (ground (arith, e))
  ]
  is_owner_step host name owner false later rest h ih = elim (ih owner) [
    | inl e ↦ inl e
    | inr e ↦ inr (ground (arith, e))
  ]

  longest_owner-is_owner :
      (host : Text) (domains : List DomainConfig) (owner : Text)
      → (longest_owner u host domains owner ≡ owner)
        ⊎ (is_owner host domains (longest_owner u host domains owner) ≡ true)
  unfolding longest_owner any
  longest_owner-is_owner host [] owner = inl refl
  longest_owner-is_owner host (d ∷ domains) owner =
      let name = normalize_domain u d.domain in
      let taken = covers u host name && ltb (byte_len owner) (byte_len name) in
      is_owner_step host name owner taken (λ o. longest_owner u host domains o)
        (is_owner host domains) (ground arith) (longest_owner-is_owner host domains)

  -- The owner of a host name is the longest name that covers it: each configured domain whose name
  -- is the host's or a suffix of it behind a dot has a name no longer than the owner's, and the
  -- owner is itself the name of such a domain, or empty.
  pub configured_domain_owner_longest :
      (hostname : Text) (domains : List DomainConfig)
      → let host = normalize_domain u hostname in
        let owner = configured_domain_owner u hostname domains in
        All
          (λ d.
            (not (covers u host (normalize_domain u d.domain))
              || leb (byte_len (normalize_domain u d.domain)) (byte_len owner))
            ≡ true)
          domains
        × ((owner ≡ []) ⊎ (is_owner host domains owner ≡ true))
  unfolding configured_domain_owner
  configured_domain_owner_longest hostname domains = (
    longest_owner-longest (normalize_domain u hostname) domains [],
    longest_owner-is_owner (normalize_domain u hostname) domains [],
  )
