-- ===== src/Iop/Frame.antt =====
-- The part of the state outside the buffers, the peers and the bytes sent, and calls that keep to a
-- relation on states.
use cr_lte_modem.Base.{◌≡◌, ◌∙◌, arith}
use cr_lte_modem.Device.{Ltem, M, Outcome, Stop, hung, out_of_fuel, ret, stop, undefined}

-- `t` has what `s` has in the fields that the input and output never touch.
pub record Frame (s t : Ltem) : Type 0 where
  pub atcmd : t.atcmd ≡ s.atcmd
  pub now : t.now ≡ s.now
  pub schedule : t.schedule ≡ s.schedule
  pub cancellation : t.cancellation_request ≡ s.cancellation_request
  pub low_mem : t.low_mem ≡ s.low_mem
  pub hw_ready : t.hw_ready ≡ s.hw_ready
  pub comm_ready : t.comm_ready ≡ s.comm_ready

pub Frame-refl : (s : Ltem) → Frame s s
Frame-refl s = ground arith

pub Frame-trans : (s t u : Ltem) → Frame s t → Frame t u → Frame s u
Frame-trans s t u f g = record {
  atcmd = g.atcmd ∙ f.atcmd;
  now = g.now ∙ f.now;
  schedule = g.schedule ∙ f.schedule;
  cancellation = g.cancellation ∙ f.cancellation;
  low_mem = g.low_mem ∙ f.low_mem;
  hw_ready = g.hw_ready ∙ f.hw_ready;
  comm_ready = g.comm_ready ∙ f.comm_ready;
}

-- the stops that are the code's own
abbrev pub IsReal : Stop → Type 0
IsReal out_of_fuel = ⊥
IsReal hung = Unit
IsReal undefined = Unit

-- A call that returns keeps to the relation, and one that does not has no lack of fuel to blame.
abbrev pub Keeping : {A : Type 0} → (Ltem → Ltem → Type 0) → Ltem → Outcome A → Type 0
Keeping R s (ret a t) = R s t
Keeping R s (stop w) = IsReal w

module _ (R : Ltem → Ltem → Type 0) (trans : (s t u : Ltem) → R s t → R t u → R s u) where
  -- a call made in a state that the relation allows
  pub Keeping-from :
      {A : Type 0} {s t : Ltem} (o : Outcome A) → R s t → Keeping R t o → Keeping R s o
  Keeping-from (stop w) k h = h
  Keeping-from (ret b u) k h = trans _ _ _ k h

  -- one call followed by another
  pub Keeping-then :
      {A B : Type 0} (m : Outcome A) (f : A → M B) (s : Ltem)
      → Keeping R s m
      → ((a : A) (t : Ltem) → Keeping R t (f a t))
      → Keeping R s (elim m [ ret a t ↦ f a t | stop w ↦ stop w ])
  Keeping-then (stop w) f s k g = k
  Keeping-then (ret a t) f s k g = Keeping-from (f a t) k (g a t)

-- a weaker relation
pub Keeping-weaken :
    {A : Type 0} (R Q : Ltem → Ltem → Type 0) {s : Ltem} (o : Outcome A)
    → ((t : Ltem) → R s t → Q s t)
    → Keeping R s o
    → Keeping Q s o
Keeping-weaken R Q (stop w) f k = k
Keeping-weaken R Q (ret a t) f k = f t k

abbrev pub Keeps : {A : Type 0} → Ltem → Outcome A → Type 0
Keeps s o = Keeping Frame s o

pub Keeps-from : {A : Type 0} {s t : Ltem} (o : Outcome A) → Frame s t → Keeps t o → Keeps s o
Keeps-from o k h = Keeping-from Frame Frame-trans o k h
