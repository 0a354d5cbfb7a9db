-- ===== src/State/Changes.antt =====
-- The goroutines that change a connection, and what its callback is told. The lock is held for the
-- change, but not for the call of the callback, which other changes and calls may overtake.
use mqtt_go.Base.{
  ◌≡◌, ◌≢◌, refl, sym, ◌∙◌, Bool, true, false, not, ◌&&◌, List, [], ◌∷◌, ◌++◌, Option, none, some,
  if◌then◌else◌, arith, Bool-cases, inl, inr,
}
use mathlib.Core.Path.{subst}
use mqtt_go.Errors.{Err}
use mathlib.Core.List.{Permᴰ}
use mathlib.Core.List.Permᴰ as PermD
use mqtt_go.State.{
  ConnState, state_new, state_active, state_closed, state_disconnected, same_state, store, Call,
  Connection, set_error_once, change_state, call_back, hold_reason,
}

-- A connection, the calls of the callback that are still to be made by the goroutines that changed the
-- state, and all that these changes asked for, the latest first.
pub record Live : Type 0 where
  pub conn : Connection
  pub pending : List Call
  pub changes : List Call

abbrev pub owes : Option Call → Live → Live
owes none l = l
owes (some k) l = record l { pending = k ∷ l.pending; changes = k ∷ l.changes }

-- A goroutine changes the state and gives the lock back.
abbrev pub update : ConnState → Live → Live
update new l = let r = change_state new l.conn in owes r.1 (record l { conn = r.0 })

abbrev pub on_conn : (Connection → Connection) → Live → Live
on_conn f l = record l { conn = f l.conn }

-- One step of a goroutine: of Connect with an accepting CONNACK, of Disconnect, of the goroutine of
-- Connect behind `c.serve()`, of SetErrorOnce; or a pending call is made, whichever comes first.
pub data Move : Live → Live → Type 0 where
  is_accepted : {l : Live} → Move l (update state_active l)
  is_disconnecting : {l : Live} → Move l (update state_disconnected l)
  has_returned :
      {l : Live} (err err_conn : Option Err) → Move l (on_conn (hold_reason err err_conn) l)
  is_closed : {l : Live} → Move l (update state_closed l)
  error_set : {l : Live} (err : Option Err) → Move l (on_conn (set_error_once err) l)
  is_called :
      {l : Live} (before : List Call) (k : Call) (behind : List Call)
      → l.pending ≡ before ++ k ∷ behind
      → Move l (record l { conn = call_back (some k) l.conn; pending = before ++ behind })

pub data Moves : Live → Live → Type 0 where
  unchanged : {l : Live} → Moves l l
  change : {a b c : Live} → Moves a b → Move b c → Moves a c

-- The state of the latest call.
abbrev pub reported : List Call → ConnState
reported [] = state_new
reported ((s, e) ∷ l) = s

-- No state is reported twice in a row, and the first is not the initial one.
abbrev pub NoRepeat : List Call → Type 0
NoRepeat [] = Unit {0}
NoRepeat ((s, e) ∷ l) = (s ≢ reported l) × NoRepeat l

-- The latest change is the state, no change repeats the one before, and each was or will be told to the
-- callback once.
pub record Informed (l : Live) : Type 0 where
  pub knows : reported l.changes ≡ l.conn.conn_state
  pub no_repeat : NoRepeat l.changes
  pub told : Permᴰ (l.pending ++ l.conn.calls) l.changes
  pub listens : l.conn.has_callback ≡ true

pub same_state→eq : (a b : ConnState) → same_state a b ≡ true → a ≡ b
same_state→eq state_new state_new e = refl
same_state→eq state_new state_active e = ground arith
same_state→eq state_new state_closed e = ground arith
same_state→eq state_new state_disconnected e = ground arith
same_state→eq state_active state_new e = ground arith
same_state→eq state_active state_active e = refl
same_state→eq state_active state_closed e = ground arith
same_state→eq state_active state_disconnected e = ground arith
same_state→eq state_closed state_new e = ground arith
same_state→eq state_closed state_active e = ground arith
same_state→eq state_closed state_closed e = refl
same_state→eq state_closed state_disconnected e = ground arith
same_state→eq state_disconnected state_new e = ground arith
same_state→eq state_disconnected state_active e = ground arith
same_state→eq state_disconnected state_closed e = ground arith
same_state→eq state_disconnected state_disconnected e = refl

pub same_state_refl : (a : ConnState) → same_state a a ≡ true
same_state_refl state_new = refl
same_state_refl state_active = refl
same_state_refl state_closed = refl
same_state_refl state_disconnected = refl

same_state-ne : (a b : ConnState) → same_state a b ≡ false → a ≢ b
same_state-ne a b e same =
    let it : same_state a a ≡ false = subst (λ x. same_state a x ≡ false) (sym same) e in
    let other : same_state a a ≡ true = same_state_refl a in cc

module _ (l : Live) (h : Informed l) (st : ConnState) where
  owes-Informed :
      (callback differs : Bool)
      → callback ≡ true
      → (differs ≡ true → l.conn.conn_state ≢ st)
      → (differs ≡ false → l.conn.conn_state ≡ st)
      → Informed (
          owes
            (if callback && differs then some (st, l.conn.error) else none)
            (record l { conn = record (l.conn) { conn_state = st } }))
  owes-Informed true true e ne eq = record {
    knows = refl;
    no_repeat = (λ same. ne refl (sym (same ∙ h.knows)), h.no_repeat);
    told = Permᴰ.cons refl h.told;
    listens = h.listens;
  }
  owes-Informed true false e ne eq = record {
    knows = h.knows ∙ eq refl;
    no_repeat = h.no_repeat;
    told = h.told;
    listens = h.listens;
  }
  owes-Informed false differs e ne eq = cc

update-Informed : (new : ConnState) (l : Live) → Informed l → Informed (update new l)
unfolding change_state
update-Informed new l h =
    let c = l.conn in
    let st = if not (same_state c.conn_state state_disconnected) then new else c.conn_state in
    owes-Informed l h st c.has_callback (not (same_state c.conn_state st)) h.listens
      (λ d. same_state-ne c.conn_state st (ground arith))
      (λ d. same_state→eq c.conn_state st (ground arith))

set_error_once-Informed :
    (err : Option Err) (l : Live) → Informed l → Informed (on_conn (set_error_once err) l)
unfolding set_error_once
set_error_once-Informed err l h = record {
  knows = h.knows;
  no_repeat = h.no_repeat;
  told = h.told;
  listens = h.listens;
}

hold_reason-Informed :
    (err err_conn : Option Err) (l : Live)
    → Informed l
    → Informed (on_conn (hold_reason err err_conn) l)
unfolding hold_reason
hold_reason-Informed err err_conn l h =
    elim (Bool-cases (same_state (l.conn.conn_state) state_disconnected)) [
      | inl e ↦ rw e h
      | inr e ↦ rw e (set_error_once-Informed (store err_conn err) l h)
    ]

-- A call that is made is not pending any more.
pub called-Perm :
    (before : List Call) (k : Call) (behind calls : List Call)
    → Permᴰ ((before ++ behind) ++ k ∷ calls) ((before ++ k ∷ behind) ++ calls)
called-Perm before k behind calls =
    Permᴰ.trans (PermD.middle k (before ++ behind) calls)
      (PermD.symm (PermD.append_right calls (PermD.middle k before behind)))

Move-Informed : {a b : Live} → Move a b → Informed a → Informed b
Move-Informed is_accepted h = update-Informed state_active _ h
Move-Informed is_disconnecting h = update-Informed state_disconnected _ h
Move-Informed (has_returned err err_conn) h = hold_reason-Informed err err_conn _ h
Move-Informed is_closed h = update-Informed state_closed _ h
Move-Informed (error_set err) h = set_error_once-Informed err _ h
Move-Informed {a} (is_called before k behind e) h = record {
  knows = h.knows;
  no_repeat = h.no_repeat;
  told =
      Permᴰ.trans (called-Perm before k behind a.conn.calls)
        (subst (λ p. Permᴰ (p ++ a.conn.calls) a.changes) e h.told);
  listens = h.listens;
}

-- Whatever goroutines change the connection, and whenever their calls of the callback are made, which
-- may be in another order than the changes: the latest change is the state, none repeats the state
-- before it, and each change is told to the callback exactly once, or its call is still pending; if
-- this holds at the start, as it does for a new connection.
pub Moves-Informed : {a b : Live} → Moves a b → Informed a → Informed b
Moves-Informed unchanged h = h
Moves-Informed (change r c) h = Move-Informed c (Moves-Informed r h)
