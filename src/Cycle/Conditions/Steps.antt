-- ===== src/Cycle/Conditions/Steps.antt =====
-- What the step of each check leaves of a condition that is still reported.
use domain_monitor.Base.{◌≡◌, refl, inl, inr, true, false, some, Option-cases, lookup}
use domain_monitor.Text.{text_eq}
use domain_monitor.Types.Code.{ResultCode}
use domain_monitor.Types.Condition.{Time}
use domain_monitor.Types.Config.{DomainConfig, DnsTask}
use domain_monitor.Cycle.Expired.Dropped.{lookup_optional}
use domain_monitor.Cycle.Conditions.{
  rdap_check, dns_check, email_check, caa_check, dnssec_check, ns_health_check, ConditionKey,
  key_eq, append_condition_alert,
}
use domain_monitor.Cycle.Conditions.Collect.{
  Progress, collect_rdap, collect_email, collect_caa, collect_dnssec, collect_ns_health,
  collect_dns, result_at,
}
use domain_monitor.Cycle.Conditions.Live.{
  reports, entry, appended-there, appended-code, own_reports, rdap-live, dns-live, email-live,
  caa-live, dnssec-live, ns_health-live,
}

module _ (key : ConditionKey) (code : ResultCode) (since now : Time) where
  -- The key has its entry, and its result still reports the condition.
  pub record Kept (p : Progress) : Type 0 where
    pub there : lookup key p.prev ≡ some (entry code since)
    pub live : reports code (result_at p.state key) ≡ true

  pub collect_rdap-Kept :
      (cfg : DomainConfig) (p : Progress) → Kept p → Kept (collect_rdap now cfg p)
  unfolding result_at collect_rdap
  collect_rdap-Kept cfg p v = elim (Option-cases (lookup cfg.domain p.state.rdap)) [
    | inl n ↦ rw (n, collect_rdap) v
    | inr (st, n) ↦
        let done =
          append_condition_alert now p.alerts cfg.name cfg.domain rdap_check st.condition st.status
            cfg.suppress_alerts p.prev in
        let own : ConditionKey = record { check = rdap_check; domain = cfg.domain } in
        rw (n, collect_rdap)
          (record {
            there =
                appended-there key code since now p.alerts cfg.name cfg.domain rdap_check
                  st.condition st.status cfg.suppress_alerts p.prev v.there
                  (own_reports key own code p.state (st.status, st.condition)
                    (rw (n, result_at) refl) v.live);
            live =
                rdap-live code p.state st (record st { condition = done.cond }) cfg.domain key.check
                  key.domain n
                  (appended-code now p.alerts cfg.name cfg.domain rdap_check st.condition st.status
                    cfg.suppress_alerts p.prev code)
                  v.live;
          })
  ]

  pub collect_email-Kept :
      (cfg : DomainConfig) (p : Progress) → Kept p → Kept (collect_email now cfg p)
  unfolding result_at collect_email
  collect_email-Kept cfg p v = elim (Option-cases (lookup cfg.domain p.state.email)) [
    | inl n ↦ rw (n, collect_email) v
    | inr (st, n) ↦
        let done =
          append_condition_alert now p.alerts cfg.name cfg.domain email_check st.condition st.status
            cfg.suppress_alerts p.prev in
        let own : ConditionKey = record { check = email_check; domain = cfg.domain } in
        rw (n, collect_email)
          (record {
            there =
                appended-there key code since now p.alerts cfg.name cfg.domain email_check
                  st.condition st.status cfg.suppress_alerts p.prev v.there
                  (own_reports key own code p.state (st.status, st.condition)
                    (rw (n, result_at) refl) v.live);
            live =
                email-live code p.state st (record st { condition = done.cond }) cfg.domain
                  key.check key.domain n
                  (appended-code now p.alerts cfg.name cfg.domain email_check st.condition st.status
                    cfg.suppress_alerts p.prev code)
                  v.live;
          })
  ]

  pub collect_caa-Kept : (cfg : DomainConfig) (p : Progress) → Kept p → Kept (collect_caa now cfg p)
  unfolding result_at collect_caa
  collect_caa-Kept cfg p v = elim (Option-cases (lookup_optional cfg.domain p.state.caa)) [
    | inl n ↦ rw (n, collect_caa) v
    | inr (st, n) ↦
        let done =
          append_condition_alert now p.alerts cfg.name cfg.domain caa_check st.condition st.status
            cfg.suppress_alerts p.prev in
        let own : ConditionKey = record { check = caa_check; domain = cfg.domain } in
        rw (n, collect_caa)
          (record {
            there =
                appended-there key code since now p.alerts cfg.name cfg.domain caa_check
                  st.condition st.status cfg.suppress_alerts p.prev v.there
                  (own_reports key own code p.state (st.status, st.condition)
                    (rw (n, result_at) refl) v.live);
            live =
                caa-live code p.state st (record st { condition = done.cond }) cfg.domain key.check
                  key.domain n
                  (appended-code now p.alerts cfg.name cfg.domain caa_check st.condition st.status
                    cfg.suppress_alerts p.prev code)
                  v.live;
          })
  ]

  pub collect_dnssec-Kept :
      (cfg : DomainConfig) (p : Progress) → Kept p → Kept (collect_dnssec now cfg p)
  unfolding result_at collect_dnssec
  collect_dnssec-Kept cfg p v = elim (Option-cases (lookup_optional cfg.domain p.state.dnssec)) [
    | inl n ↦ rw (n, collect_dnssec) v
    | inr (st, n) ↦
        let done =
          append_condition_alert now p.alerts cfg.name cfg.domain dnssec_check st.condition
            st.status cfg.suppress_alerts p.prev in
        let own : ConditionKey = record { check = dnssec_check; domain = cfg.domain } in
        rw (n, collect_dnssec)
          (record {
            there =
                appended-there key code since now p.alerts cfg.name cfg.domain dnssec_check
                  st.condition st.status cfg.suppress_alerts p.prev v.there
                  (own_reports key own code p.state (st.status, st.condition)
                    (rw (n, result_at) refl) v.live);
            live =
                dnssec-live code p.state st (record st { condition = done.cond }) cfg.domain
                  key.check key.domain n
                  (appended-code now p.alerts cfg.name cfg.domain dnssec_check st.condition
                    st.status cfg.suppress_alerts p.prev code)
                  v.live;
          })
  ]

  pub collect_ns_health-Kept :
      (cfg : DomainConfig) (p : Progress) → Kept p → Kept (collect_ns_health now cfg p)
  unfolding result_at collect_ns_health
  collect_ns_health-Kept cfg p v =
      elim (Option-cases (lookup_optional cfg.domain p.state.ns_health)) [
        | inl n ↦ rw (n, collect_ns_health) v
        | inr (st, n) ↦
            let done =
              append_condition_alert now p.alerts cfg.name cfg.domain ns_health_check st.condition
                st.status cfg.suppress_alerts p.prev in
            let own : ConditionKey = record { check = ns_health_check; domain = cfg.domain } in
            rw (n, collect_ns_health)
              (record {
                there =
                    appended-there key code since now p.alerts cfg.name cfg.domain ns_health_check
                      st.condition st.status cfg.suppress_alerts p.prev v.there
                      (own_reports key own code p.state (st.status, st.condition)
                        (rw (n, result_at) refl) v.live);
                live =
                    ns_health-live code p.state st (record st { condition = done.cond }) cfg.domain
                      key.check key.domain n
                      (appended-code now p.alerts cfg.name cfg.domain ns_health_check st.condition
                        st.status cfg.suppress_alerts p.prev code)
                      v.live;
              })
      ]

  pub collect_dns-Kept : (task : DnsTask) (p : Progress) → Kept p → Kept (collect_dns now task p)
  unfolding result_at collect_dns
  collect_dns-Kept task p v = elim (Option-cases (lookup task.name p.state.dns)) [
    | inl n ↦ rw (n, collect_dns) v
    | inr (st, n) ↦
        let done =
          append_condition_alert now p.alerts task.name task.name dns_check st.condition st.status
            false p.prev in
        let own : ConditionKey = record { check = dns_check; domain = task.name } in
        rw (n, collect_dns)
          (record {
            there =
                appended-there key code since now p.alerts task.name task.name dns_check
                  st.condition st.status false p.prev v.there
                  (own_reports key own code p.state (st.status, st.condition)
                    (rw (n, result_at) refl) v.live);
            live =
                dns-live code p.state st (record st { condition = done.cond }) task.name key.check
                  key.domain n
                  (appended-code now p.alerts task.name task.name dns_check st.condition st.status
                    false p.prev code)
                  v.live;
          })
  ]
