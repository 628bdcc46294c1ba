-- ===== src/Runtime/Sessions/Machine.antt =====
-- The session of internal/runtime/manager.go as a machine with two kinds of states, and the calls
-- of the manager as its steps.
use rook_servicechannel_agen.Common.{
  String, Bool, true, false, none, some, List, [], ◌∷◌, ◌≡◌, refl, sym, ap, ◌∙◌, arith,
}
use rook_servicechannel_agen.Action.{ok, ◌>>=◌, >>=_ok, >>=-eq-ok}
use rook_servicechannel_agen.Host.{Host}
use rook_servicechannel_agen.Session.Files.{Laws}
use rook_servicechannel_agen.Session.Laws.{load-valid}
use rook_servicechannel_agen.Backend.Contract.{SupportSession, validate_session, no_session}
use rook_servicechannel_agen.Backend.Client.{status_call}
use rook_servicechannel_agen.Runtime.State.{Agent, Snapshot, on_world}
use rook_servicechannel_agen.Runtime.Manager.{
  stop_heartbeat_loop, start_heartbeat_loop, snapshot_of,
}
use rook_servicechannel_agen.Runtime.Calls.{
  begin_session, get_session_status, resolve_pin, snapshot, stop_session, stop_with,
  recover_after_boot, client, ask_status, keep,
}
use rook_servicechannel_agen.Runtime.Heartbeat.{stop_heartbeat_loop-ok}
use rook_servicechannel_agen.Runtime.Sessions.{
  Holds, IsGone, keep-Holds, begin_session-Holds, begin_session-current, resolve_pin-Holds,
  snapshot-Holds, resolve_pin-IsGone, snapshot-IsGone, stop_with-Ended,
}
use rook_servicechannel_agen.Runtime.Sessions.Start.{start-keeps}
use rook_servicechannel_agen.Runtime.Sessions.Reboot.{recover_after_boot-true}

-- A state of the machine, and what a call that succeeds shows to its caller.
pub data View : Type 0 where
  idle : View
  active : SupportSession → View

pub data Label : Type 0 where
  began asked : SupportSession → Label
  told : String → Label
  showed : Snapshot → Label
  stopped rebooted beating : Label

abbrev pub is_active : View → Bool
is_active idle = false
is_active (active s) = true

abbrev pub session_of : View → SupportSession
session_of idle = no_session
session_of (active s) = s

-- The steps of the machine.
abbrev pub Allowed : View → Label → View → Type 0
Allowed x (began s) y = (validate_session s ≡ none) × (y ≡ active s)
Allowed x (asked s) y = (validate_session s ≡ none) × (y ≡ active s)
Allowed x (told pin) y = (is_active x ≡ true) × (pin ≡ (session_of x).pin) × (y ≡ x)
Allowed x (showed snap) y =
    (snap.has_session ≡ is_active x) × (snap.session ≡ session_of x) × (y ≡ x)
Allowed x stopped y = y ≡ idle
Allowed x rebooted y = (is_active x ≡ true) × (y ≡ idle)
Allowed x beating y = y ≡ x

abbrev pub AllowedAll : View → List Label → View → Type 0
AllowedAll x [] z = x ≡ z
AllowedAll x (l ∷ ls) z = (y : View) × Allowed x l y × AllowedAll y ls z

module _ {W : Type 0} (host : Host W) where
  -- A call that succeeds. The PIN is asked for without one being given.
  abbrev pub Succeeds : Agent W → Label → Agent W → Type 0
  Succeeds a (began s) b = begin_session host a ≡ (ok s, b)
  Succeeds a (asked s) b = (pin : String) × (get_session_status host pin a ≡ (ok s, b))
  Succeeds a (told pin) b = resolve_pin host "" a ≡ (ok pin, b)
  Succeeds a (showed snap) b = snapshot host a ≡ (ok snap, b)
  Succeeds a stopped b = (pin : String) × (stop_session host pin a ≡ (ok tt, b))
  Succeeds a rebooted b = recover_after_boot host a ≡ (ok true, b)
  Succeeds a beating b = (pin : String) × (start_heartbeat_loop pin a ≡ (ok tt, b))

  abbrev pub SucceedAll : Agent W → List Label → Agent W → Type 0
  SucceedAll a [] c = a ≡ c
  SucceedAll a (l ∷ ls) c = (b : Agent W) × Succeeds a l b × SucceedAll b ls c

  -- The state file is missing, or it has the session.
  abbrev pub Represents : Agent W → View → Type 0
  Represents a idle = IsGone host a
  Represents a (active s) = Holds host a s

module _ {W : Type 0} (host : Host W) (laws : Laws host) where
  Holds-valid : (a : Agent W) {s : SupportSession} → Holds host a s → validate_session s ≡ none
  Holds-valid a h = load-valid host a.manager.state_store a.world a.world h.loaded

  asked-Holds :
      (pin : String) (a b : Agent W) {s : SupportSession}
      → get_session_status host pin a ≡ (ok s, b)
      → Holds host b s
  unfolding get_session_status
  asked-Holds pin a b {s} e =
      let (c, u, _, rest) =
        >>=-eq-ok (client host) (λ c. resolve_pin host pin >>= λ p. ask_status host c p) a e in
      let (p, v, _, answered) =
        >>=-eq-ok (resolve_pin host pin) (λ p. ask_status host c p) u rest in
      let (session, w, _, kept) =
        >>=-eq-ok (on_world (status_call host c p)) (keep host) v answered in
      let (same, held) = keep-Holds host laws session s w b kept in rw same held

  stopped-IsGone :
      (pin : String) (a b : Agent W) → stop_session host pin a ≡ (ok tt, b) → IsGone host b
  unfolding stop_session
  stopped-IsGone pin a b e =
      let (p, u, _, rest) =
        >>=-eq-ok (resolve_pin host pin) (λ p. stop_heartbeat_loop >>= λ _. stop_with host p) a e in
      let ended =
        sym (>>=_ok stop_heartbeat_loop (λ _. stop_with host p) u (stop_heartbeat_loop-ok u))
        ∙ rest in
      (stop_with-Ended host laws p (stop_heartbeat_loop u).1 b ended).0

  told-Allowed :
      (x : View) (pin : String) (a b : Agent W)
      → Represents host a x
      → resolve_pin host "" a ≡ (ok pin, b)
      → Allowed x (told pin) x × Represents host b x
  told-Allowed idle pin a b r e = let no_pin = resolve_pin-IsGone host a r in ground arith
  told-Allowed (active s) pin a b r e =
      let known = resolve_pin-Holds host a r in
      let same : a ≡ b = ground arith in ((refl, ground arith, refl), rw same at r)

  showed-Allowed :
      (x : View) (snap : Snapshot) (a b : Agent W)
      → Represents host a x
      → snapshot host a ≡ (ok snap, b)
      → Allowed x (showed snap) x × Represents host b x
  unfolding snapshot_of
  showed-Allowed idle snap a b r e =
      let shown = snapshot-IsGone host a r in
      let same : a ≡ b = ground arith in
      let this : snapshot_of a.manager none ≡ snap = ground arith in
      ((ap (λ p. p.has_session) (sym this), ap (λ p. p.session) (sym this), refl), rw same at r)
  showed-Allowed (active s) snap a b r e =
      let shown = snapshot-Holds host a r in
      let same : a ≡ b = ground arith in
      let this : snapshot_of a.manager (some s) ≡ snap = ground arith in
      ((ap (λ p. p.has_session) (sym this), ap (λ p. p.session) (sym this), refl), rw same at r)

  rebooted-Allowed :
      (x : View) (a b : Agent W)
      → Represents host a x
      → recover_after_boot host a ≡ (ok true, b)
      → Allowed x rebooted idle × Represents host b idle
  rebooted-Allowed idle a b r e =
      let (state, u, loaded, _, gone) = recover_after_boot-true host laws a b e in ground arith
  rebooted-Allowed (active s) a b r e =
      let (state, u, loaded, _, gone) = recover_after_boot-true host laws a b e in
      ((refl, refl), gone)

  beating-Represents :
      (x : View) (pin : String) (a b : Agent W)
      → Represents host a x
      → start_heartbeat_loop pin a ≡ (ok tt, b)
      → Represents host b x
  beating-Represents idle pin a b r e =
      let (world, store) = start-keeps pin a in
      let gone : IsGone host (start_heartbeat_loop pin a).1 = rw (world, store) r in
      let same : (start_heartbeat_loop pin a).1 ≡ b = ap (λ p. p.1) e in rw same at gone
  beating-Represents (active s) pin a b r e =
      let (world, store) = start-keeps pin a in
      let held : Holds host (start_heartbeat_loop pin a).1 s = record {
        boot_id = r.boot_id;
        loaded = rw (world, store) r.loaded;
      } in
      let same : (start_heartbeat_loop pin a).1 ≡ b = ap (λ p. p.1) e in rw same at held

  step-Represents :
      (l : Label) (x : View) (a b : Agent W)
      → Represents host a x
      → Succeeds host a l b
      → (y : View) × Allowed x l y × Represents host b y
  step-Represents (began s) x a b r e = (
    active s,
    ((begin_session-current host laws a b e).0, refl),
    begin_session-Holds host laws a b e,
  )
  step-Represents (asked s) x a b r (pin, e) =
      let held = asked-Holds pin a b e in (active s, (Holds-valid b held, refl), held)
  step-Represents (told pin) x a b r e =
      let (allowed, after) = told-Allowed x pin a b r e in (x, allowed, after)
  step-Represents (showed snap) x a b r e =
      let (allowed, after) = showed-Allowed x snap a b r e in (x, allowed, after)
  step-Represents stopped x a b r (pin, e) = (idle, refl, stopped-IsGone pin a b e)
  step-Represents rebooted x a b r e =
      let (allowed, after) = rebooted-Allowed x a b r e in (idle, allowed, after)
  step-Represents beating x a b r (pin, e) = (x, refl, beating-Represents x pin a b r e)

  -- The manager refines the machine: calls of the manager that succeed one after another, starting
  -- where the state file is missing or has a session, show what steps of the machine show, and
  -- the state file is then as the machine's last state says: it is missing, or it has that session.
  -- The machine becomes active, with a valid session, by a start or a question for the status, and
  -- idle by a stop or a reboot; the other calls tell its PIN and its session, and leave it as it is.
  pub SucceedAll-AllowedAll :
      (ls : List Label) (x : View) (a b : Agent W)
      → Represents host a x
      → SucceedAll host a ls b
      → (y : View) × AllowedAll x ls y × Represents host b y
  SucceedAll-AllowedAll [] x a b r e = (x, refl, rw e at r)
  SucceedAll-AllowedAll (l ∷ ls) x a b r (c, step, rest) =
      let (y, allowed, after) = step-Represents l x a c r step in
      let (z, all, last) = SucceedAll-AllowedAll ls y c b after rest in (z, (y, allowed, all), last)
