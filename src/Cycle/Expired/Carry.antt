-- ===== src/Cycle/Expired/Carry.antt =====
-- What one cycle carries over to the next about expired domains, and what it drops for them.
use domain_monitor.Base.{
  ℕ, zero, suc, ◌≡◌, inl, inr, refl, ap, Bool, true, false, ◌&&◌, ◌||◌, List, [], ◌∷◌, arith, map,
  some, if◌then◌else◌, ◌==◌, Bool-cases, beq_refl, ◌∙◌, KeySet, member, contains, distinct,
  member-add, member-delete, get_elem?,
}
use domain_monitor.Text.{Text, text_beq, text_beq_iff, text_eq}
use domain_monitor.Types.Code
use domain_monitor.Types.Config.{DomainConfig, AppConfig}
use domain_monitor.Types.Portfolio.{names, apart_of}
use domain_monitor.Types.Results.{CheckState}
use domain_monitor.Cycle.Expired.{
  rdap_of, judge_expired, judge_all_expired, next_expired_domains, is_confirmed_expired,
}

-- What the evidence of a cycle says of a domain, given what was known of it before.
unfoldable pub stays_expired : CheckState → KeySet Text → DomainConfig → Bool
unfolding is_confirmed_expired rdap_of
stays_expired state current d =
    is_confirmed_expired state d
    || d.allow_expiry
      && member d.domain current
      && (rdap_of state d.domain).condition.code == Code.rdap_http_error

judge_expired-member :
    (state : CheckState) (d : DomainConfig) (expired : KeySet Text) (x : Text)
    → member x (judge_expired state d expired)
      ≡ (if text_beq d.domain x then stays_expired state expired d else member x expired)
unfolding judge_expired stays_expired is_confirmed_expired
judge_expired-member state d expired x = elim (Bool-cases (text_beq d.domain x)) [
  | inl e ↦
      let same = (text_beq_iff d.domain x).0 e in
      ground (
        arith,
        ap (λ t. member t expired) same,
        member-add d.domain x expired,
        member-delete d.domain x expired,
      )
  | inr e ↦ ground (arith, member-add d.domain x expired, member-delete d.domain x expired)
]

judge_all_expired-other :
    (state : CheckState) (domains : List DomainConfig) (expired : KeySet Text) (x : Text)
    → contains (names domains) x ≡ false
    → member x (judge_all_expired state domains expired) ≡ member x expired
unfolding judge_all_expired contains
judge_all_expired-other state [] expired x h = refl
judge_all_expired-other state (d ∷ domains) expired x h = ground (
  arith,
  judge_all_expired-other state domains (judge_expired state d expired) x,
  judge_expired-member state d expired x,
)

-- Only what was known of the domain itself counts.
stays_expired-other :
    (state : CheckState) (expired : KeySet Text) (c d : DomainConfig)
    → text_beq c.domain d.domain ≡ false
    → stays_expired state (judge_expired state c expired) d ≡ stays_expired state expired d
unfolding stays_expired
stays_expired-other state expired c d h =
    ground (arith, judge_expired-member state c expired d.domain)

judge_all_expired-member :
    (state : CheckState) (domains : List DomainConfig) (expired : KeySet Text) (i : ℕ)
    (d : DomainConfig)
    → get_elem? domains i ≡ some d
    → distinct (names domains) ≡ true
    → member d.domain (judge_all_expired state domains expired) ≡ stays_expired state expired d
unfolding judge_all_expired distinct
judge_all_expired-member state [] expired i d at h = cc at
judge_all_expired-member state (c ∷ domains) expired zero d at h = ground (
  arith,
  at,
  beq_refl d.domain,
  judge_all_expired-other state domains (judge_expired state c expired) c.domain,
  judge_expired-member state c expired c.domain,
  beq_refl c.domain,
)
judge_all_expired-member state (c ∷ domains) expired (suc i) d at h =
    let apart : text_beq c.domain d.domain ≡ false =
      apart_of c d domains i at (ground (arith, h)) in
    judge_all_expired-member state domains (judge_expired state c expired) i d at
      (ground (arith, h))
    ∙ stays_expired-other state expired c d apart

-- What the next cycle knows of a configured domain, when no two domains have the same name: it is
-- held to have expired exactly when it may expire and either this cycle's registration data
-- confirm it, or it was held so before and the registry could not be asked. In particular an
-- outage neither makes a domain expired nor revives one.
pub next_expired_domains-member :
    (current : KeySet Text) (cfg : AppConfig) (state : CheckState) (i : ℕ) (d : DomainConfig)
    → get_elem? cfg.domains i ≡ some d
    → distinct (map (λ (c : DomainConfig). c.domain) cfg.domains) ≡ true
    → member d.domain (next_expired_domains current cfg state) ≡ stays_expired state current d
unfolding next_expired_domains
next_expired_domains-member current cfg state i d at h =
    judge_all_expired-member state cfg.domains current i d at h
