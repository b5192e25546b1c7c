-- ===== src/AuditReceiver/Accepted.antt =====
-- audit-only-receiver.mjs: the bounds of a configuration that the receiver accepts.
use air_call_demo_recording.Base.{
  ℕ, ◌≤◌, ◌<◌, ◌≡◌, refl, ◌⊎◌, inl, inr, not, ◌&&◌, Option, none, some, arith, Bool-cases, length,
  all,
}
use mathlib.Core.Option.{some-injective}
use mathlib.Core.Path.{subst}
use air_call_demo_recording.Base.Text.{Text, codes, text_eq, has}
use air_call_demo_recording.Base.Text.Laws.{text_eq→eq}
use air_call_demo_recording.Js.{Value, num, str, natural, Heap, HeapObject, has_symbol_key, deref}
use air_call_demo_recording.AuditReceiver.Config.{
  Settings, snapshot_config, snapshot_fields, between, loopback, nonempty, ◌>>=◌, plain_record,
  plain_array, guard, required, or_else, is_function, is_some, set_of_object, optional_array,
  is_config_key, read_value, check_store,
}

-- The loopback addresses, the port of TCP, and what the receiver bounds itself by.
pub record IsBounded (g : Settings) : Type 0 where
  pub on_loopback : (g.host ≡ codes "127.0.0.1") ⊎ (g.host ≡ codes "::1")
  pub token_given : 0 < length g.expected_webhook_token
  pub port_bounded : g.port ≤ 65535
  pub body_bounded : (1 ≤ g.max_body_bytes) × (g.max_body_bytes ≤ 131072)
  pub shutdown_bounded : (1 ≤ g.shutdown_timeout_ms) × (g.shutdown_timeout_ms ≤ 30000)
  pub flights_bounded : (1 ≤ g.max_in_flight) × (g.max_in_flight ≤ 32)
  pub readiness_bounded : (10 ≤ g.readiness_timeout_ms) × (g.readiness_timeout_ms ≤ 1000)

bind {ℓ} :
    {A : Type ℓ} (m : Option A) (f : A → Option Settings)
    → ((a : A) → m ≡ some a → (g : Settings) → f a ≡ some g → IsBounded g)
    → (g : Settings) → (m >>= f) ≡ some g
    → IsBounded g
bind none f h g e = cc
bind (some a) f h g e = h a refl g e

holds : (a g : Settings) → IsBounded a → some a ≡ some g → IsBounded g
holds a g h e = subst IsBounded (some-injective a g e) h

between_bounds : (lo hi : ℕ) (v : Value) (n : ℕ) → between lo hi v ≡ some n → (lo ≤ n) × (n ≤ hi)
between_bounds lo hi v n e = ground arith

loopback_hosts :
    (v : Value) (t : Text) → loopback v ≡ some t → (t ≡ codes "127.0.0.1") ⊎ (t ≡ codes "::1")
unfolding has
loopback_hosts (str t) u e = elim (Bool-cases (text_eq (codes "127.0.0.1") t)) [
  | inl b ↦ inl (ground (arith, text_eq→eq (codes "127.0.0.1") t))
  | inr b ↦ inr (ground (arith, text_eq→eq (codes "::1") t))
]
loopback_hosts v u e = cc

nonempty-length : (v : Value) (t : Text) → nonempty v ≡ some t → 0 < length t
nonempty-length v t e = ground arith

snapshot_fields-IsBounded :
    (h : Heap) (o : HeapObject) (g : Settings) → snapshot_fields h o ≡ some g → IsBounded g
unfolding snapshot_fields
snapshot_fields-IsBounded h o =
    bind (guard (not (has_symbol_key o.props) && all is_config_key o.props)) _ λ u0 e_u0.
      bind (required o (codes "expectedWebhookToken")) _ λ token e_token.
        bind (required o (codes "canonicalBoardId")) _ λ board e_board.
          bind (required o (codes "stateColumnId")) _ λ column e_column.
            bind (required o (codes "phoneColumnIds")) _ λ phones e_phones.
              bind (required o (codes "stateSource")) _ λ source e_source.
                bind (required o (codes "mondayQuery")) _ λ query e_query.
                  bind (required o (codes "store")) _ λ store e_store.
                    bind (required o (codes "ruleset")) _ λ rules e_rules.
                      bind (required o (codes "approvedRulesetVersions")) _ λ versions e_versions.
                        bind (read_value o (codes "allowedPhoneColumnTypes")) _ λ types e_types.
                          bind (read_value o (codes "host")) _ λ host e_host.
                            bind (read_value o (codes "port")) _ λ port e_port.
                              bind (read_value o (codes "maxBodyBytes")) _ λ bytes e_bytes.
                                bind (read_value o (codes "shutdownTimeoutMs")) _
                                  λ shutdown e_shutdown.
                                    bind (read_value o (codes "maxInFlight")) _ λ flights e_flights.
                                      bind (read_value o (codes "readinessTimeoutMs")) _
                                        λ readiness e_readiness.
                                          bind (nonempty token) _
                                            λ expected_webhook_token e_expected_webhook_token.
                                              bind (nonempty board) _
                                                λ canonical_board_id e_canonical_board_id.
                                                  bind (nonempty column) _
                                                    λ state_column_id e_state_column_id.
                                                      bind (nonempty source) _
                                                        λ state_source e_state_source.
                                                          bind (plain_array h phones) _
                                                            λ phone_column_ids e_phone_column_ids.
                                                            bind (plain_record h store) _
                                                            λ store_object e_store_object.
                                                            bind
                                                            (guard (
                                                            is_function query
                                                            && is_some (plain_record h rules)
                                                            && set_of_object (deref h versions)))
                                                            _
                                                            λ u1 e_u1.
                                                            bind
                                                            (loopback (
                                                            or_else host (str (codes "127.0.0.1"))))
                                                            _
                                                            λ host_text e_host_text.
                                                            bind
                                                            (between 0 65535
                                                            (or_else port (num (natural 0))))
                                                            _
                                                            λ port_number e_port_number.
                                                            bind
                                                            (between 1 131072
                                                            (or_else bytes (num (natural 131072))))
                                                            _
                                                            λ max_body_bytes e_max_body_bytes.
                                                            bind
                                                            (between 1 30000 (
                                                            or_else shutdown (num (natural 30000))))
                                                            _
                                                            λ shutdown_timeout_ms
                                                            e_shutdown_timeout_ms.
                                                            bind
                                                            (between 1 32
                                                            (or_else flights (num (natural 32))))
                                                            _
                                                            λ max_in_flight e_max_in_flight.
                                                            bind
                                                            (between 10 1000
                                                            (or_else readiness (num (natural 250))))
                                                            _
                                                            λ readiness_timeout_ms
                                                            e_readiness_timeout_ms.
                                                            bind (optional_array h types) _
                                                            λ allowed_phone_column_types
                                                            e_allowed_phone_column_types.
                                                            bind (check_store store_object) _
                                                            λ methods e_methods. λ g e.
                                                            holds _ g
                                                            (record {
                                                            on_loopback =
                                                            loopback_hosts
                                                            (or_else host (str (codes "127.0.0.1")))
                                                            host_text e_host_text;
                                                            token_given =
                                                            nonempty-length token
                                                            expected_webhook_token
                                                            e_expected_webhook_token;
                                                            port_bounded =
                                                            (between_bounds 0 65535
                                                            (or_else port (num (natural 0)))
                                                            port_number e_port_number).1;
                                                            body_bounded =
                                                            between_bounds 1 131072
                                                            (or_else bytes (num (natural 131072)))
                                                            max_body_bytes e_max_body_bytes;
                                                            shutdown_bounded =
                                                            between_bounds 1 30000
                                                            (or_else shutdown (num (natural 30000)))
                                                            shutdown_timeout_ms
                                                            e_shutdown_timeout_ms;
                                                            flights_bounded =
                                                            between_bounds 1 32
                                                            (or_else flights (num (natural 32)))
                                                            max_in_flight e_max_in_flight;
                                                            readiness_bounded =
                                                            between_bounds 10 1000
                                                            (or_else readiness (num (natural 250)))
                                                            readiness_timeout_ms
                                                            e_readiness_timeout_ms;
                                                            })
                                                            e

-- A configuration that the receiver accepts has a loopback host and a token, and its port, its body,
-- its shutdown, its requests in flight and its readiness probe are bounded.
pub snapshot_config-IsBounded :
    (h : Heap) (v : Value) (g : Settings) → snapshot_config h v ≡ some g → IsBounded g
unfolding snapshot_config
snapshot_config-IsBounded h v g e =
    bind (plain_record h v) (snapshot_fields h) (λ o found. snapshot_fields-IsBounded h o) g e
