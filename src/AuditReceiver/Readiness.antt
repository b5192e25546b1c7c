-- ===== src/AuditReceiver/Readiness.antt =====
-- audit-only-receiver.mjs: `ready` and `boundedReadiness`. Probes of the dependency that was injected
-- may never settle; the deadline of the probe that runs is a step of its own.
use mathlib.Core.Path.{subst}
use air_call_demo_recording.Base.{
  ℕ, zero, suc, ◌+◌, ◌-◌, ◌≤◌, ◌≡◌, refl, Bool, true, false, List, [], ◌∷◌, arith, if◌then◌else◌,
}
use air_call_demo_recording.AuditReceiver.{Reply, send, ready_now, not_ok}

-- `readinessCheck`: none, one that is awaited, or one that is past its deadline and unsettled.
pub data Probe : Type 0 where
  idle running overdue : Probe

-- The probe, the calls of the dependency that have not settled, the requests that wait for the probe,
-- and the replies sent, the last one first.
pub record Readiness : Type 0 where
  pub probe : Probe
  pub unsettled : ℕ
  pub waiting : ℕ
  pub replies : List Reply

pub data ProbeStep : Type 0 where
  asking deadline : ProbeStep
  settling : Bool → ProbeStep

abbrev readiness_reply : Bool → Reply
readiness_reply b = if b then send 200 ready_now else send 503 not_ok

unfoldable pub reply_all : ℕ → Reply → List Reply → List Reply
reply_all zero r replies = replies
reply_all (suc n) r replies = r ∷ reply_all n r replies

abbrev pub ask : Probe → Readiness → Readiness
ask idle s = record s { probe = running; unsettled = s.unsettled + 1; waiting = s.waiting + 1 }
ask running s = record s { waiting = s.waiting + 1 }
ask overdue s = record s { replies = readiness_reply false ∷ s.replies }

abbrev pub pass_deadline : Probe → Readiness → Readiness
pass_deadline running s = record s {
  probe = overdue;
  waiting = 0;
  replies = reply_all s.waiting (readiness_reply false) s.replies;
}
pass_deadline _ s = s

abbrev pub settle : Bool → Probe → Readiness → Readiness
settle b idle s = s
settle b running s = record {
  probe = idle;
  unsettled = s.unsettled - 1;
  waiting = 0;
  replies = reply_all s.waiting (readiness_reply b) s.replies;
}
settle b overdue s = record s { probe = idle; unsettled = s.unsettled - 1 }

-- A receiver whose store has neither `ready` nor `initialize` answers at once.
unfoldable pub probe_step : (has_dependency : Bool) → ProbeStep → Readiness → Readiness
probe_step false asking s = record s { replies = readiness_reply false ∷ s.replies }
probe_step true asking s = ask s.probe s
probe_step h deadline s = pass_deadline s.probe s
probe_step h (settling b) s = settle b s.probe s

unfoldable pub probe_all : (has_dependency : Bool) → List ProbeStep → Readiness → Readiness
probe_all h [] s = s
probe_all h (e ∷ steps) s = probe_all h steps (probe_step h e s)

-- The probes that a state accounts for, and those that wait for them.
abbrev IsAccounted : Probe → Readiness → Type 0
IsAccounted idle s = (s.unsettled ≡ 0) × (s.waiting ≡ 0)
IsAccounted running s = s.unsettled ≡ 1
IsAccounted overdue s = (s.unsettled ≡ 1) × (s.waiting ≡ 0)

IsSingle : Readiness → Type 0
IsSingle s = IsAccounted s.probe s

accounted : (p : Probe) (s : Readiness) → s.probe ≡ p → IsSingle s → IsAccounted p s
unfolding IsSingle
accounted p s e v = subst (λ q. IsAccounted q s) e v

reply-IsAccounted :
    (p : Probe) (s : Readiness) (r : Reply)
    → IsAccounted p s
    → IsAccounted p (record s { replies = r ∷ s.replies })
reply-IsAccounted idle s r v = v
reply-IsAccounted running s r v = v
reply-IsAccounted overdue s r v = v

ask-IsSingle : (p : Probe) (s : Readiness) → s.probe ≡ p → IsSingle s → IsSingle (ask p s)
unfolding IsSingle
ask-IsSingle idle s e v = let a = accounted idle s e v in omega arith
ask-IsSingle running s e v = let a = accounted running s e v in rw e (omega arith)
ask-IsSingle overdue s e v = let a = accounted overdue s e v in rw e (omega arith)

pass_deadline-IsSingle :
    (p : Probe) (s : Readiness) → s.probe ≡ p → IsSingle s → IsSingle (pass_deadline p s)
unfolding IsSingle
pass_deadline-IsSingle idle s e v = v
pass_deadline-IsSingle running s e v = let a = accounted running s e v in omega arith
pass_deadline-IsSingle overdue s e v = v

settle-IsSingle :
    (b : Bool) (p : Probe) (s : Readiness) → s.probe ≡ p → IsSingle s → IsSingle (settle b p s)
unfolding IsSingle
settle-IsSingle b idle s e v = v
settle-IsSingle b running s e v = let a = accounted running s e v in omega arith
settle-IsSingle b overdue s e v = let a = accounted overdue s e v in omega arith

probe_step-IsSingle :
    (h : Bool) (e : ProbeStep) (s : Readiness) → IsSingle s → IsSingle (probe_step h e s)
unfolding probe_step IsSingle
probe_step-IsSingle false asking s v = reply-IsAccounted s.probe s (send 503 not_ok) v
probe_step-IsSingle true asking s v = ask-IsSingle s.probe s refl v
probe_step-IsSingle false deadline s v = pass_deadline-IsSingle s.probe s refl v
probe_step-IsSingle true deadline s v = pass_deadline-IsSingle s.probe s refl v
probe_step-IsSingle false (settling b) s v = settle-IsSingle b s.probe s refl v
probe_step-IsSingle true (settling b) s v = settle-IsSingle b s.probe s refl v

probe_all-IsSingle :
    (h : Bool) (steps : List ProbeStep) (s : Readiness)
    → IsSingle s
    → IsSingle (probe_all h steps s)
unfolding probe_all
probe_all-IsSingle h [] s v = v
probe_all-IsSingle h (e ∷ steps) s v =
    probe_all-IsSingle h steps (probe_step h e s) (probe_step-IsSingle h e s v)

single-le : (p : Probe) (s : Readiness) → IsAccounted p s → s.unsettled ≤ 1
single-le idle s v = omega arith
single-le running s v = omega arith
single-le overdue s v = omega arith

-- However many requests ask for readiness, and whenever probes settle or pass their deadline: from no
-- probe, at most one call of the dependency is unsettled at a time.
pub probe_all-unsettled :
    (h : Bool) (steps : List ProbeStep) (s : Readiness)
    → s.probe ≡ idle
    → s.unsettled ≡ 0
    → s.waiting ≡ 0
    → (probe_all h steps s).unsettled ≤ 1
unfolding IsSingle
probe_all-unsettled h steps s p u w =
    single-le (probe_all h steps s).probe (probe_all h steps s)
      (probe_all-IsSingle h steps s (rw p (u, w)))
