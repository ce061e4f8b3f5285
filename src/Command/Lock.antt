-- ===== src/Command/Lock.antt =====
-- The lock of `atcmd__acquireLock`.
use cr_lte_modem.Base.{
  ℕ, zero, suc, ◌+◌, ◌-◌, ◌≡◌, refl, sym, ap, ◌∙◌, Bool, true, false, none, arith, if◌then◌else◌,
  take,
}
use mathlib.Core.Path.{subst}
use cr_lte_modem.CString.{Bytes}
use cr_lte_modem.Parser.{result_pending}
use cr_lte_modem.Device.{Ltem, Atcmd, M, Outcome, ret, stop, tx_buffer_sz}
use cr_lte_modem.Host.{delay}
use cr_lte_modem.Iop.Rx.{reset_cmd_buffer}
use cr_lte_modem.Command.{atcmd_init, await_lock, acquire_lock, lockretry_interval}
use cr_lte_modem.Command.Wait.{Yields, yield-Yields}

-- the command as `s_atcmdInit` leaves it: open, pending, its text in the array, and no parser or timer
pub record Fresh (cmd : Bytes) (a : Atcmd) : Type 0 where
  pub is_open : a.is_open ≡ true
  pub pending : a.result_code ≡ result_pending
  pub text : a.cmd_str ≡ take tx_buffer_sz cmd
  pub timer : a.invoked_at ≡ 0
  pub no_parser : a.parser ≡ none

-- `n` delays between retries in a row, with nothing looked at
unfoldable pub delays : ℕ → M (Unit {0})
delays zero s = ret tt s
delays (suc n) s = elim (delay lockretry_interval s) [ ret _ t ↦ delays n t | stop w ↦ stop w ]

-- a result behind a wait
abbrev pub behind : {A : Type 0} → A → Outcome (Unit {0}) → Outcome A
behind a (ret _ t) = ret a t
behind a (stop w) = stop w

-- where a wait returns, the command is as it was
abbrev pub Untouched : {A : Type 0} → Ltem → Outcome A → Type 0
Untouched s (ret _ t) = t.atcmd ≡ s.atcmd
Untouched s (stop w) = Unit

delay-Yields : (ms : ℕ) (s : Ltem) → Yields (record s { now = s.now + ms }) (delay ms s)
unfolding delay
delay-Yields ms s = yield-Yields (record s { now = s.now + ms })

after_delay :
    (n : ℕ) (s : Ltem) (o : Outcome (Unit {0}))
    → Yields (record s { now = s.now + lockretry_interval }) o
    → ((t : Ltem) → Untouched t (delays n t))
    → Untouched s (elim o [ ret _ t ↦ delays n t | stop w ↦ stop w ])
after_delay n s (stop w) y rec = tt
after_delay n s (ret u t) y rec = moved (delays n t) (rec t)
  where
    moved : (o : Outcome (Unit {0})) → Untouched t o → Untouched s o
    moved (ret _ v) e = e ∙ y.atcmd
    moved (stop w) e = tt

pub delays-Untouched : (n : ℕ) (s : Ltem) → Untouched s (delays n s)
unfolding delays
delays-Untouched zero s = refl
delays-Untouched (suc n) s =
    after_delay n s (delay lockretry_interval s) (delay-Yields lockretry_interval s)
      (λ t. delays-Untouched n t)

pub behind-Untouched :
    {A : Type 0} (a : A) (s : Ltem) (o : Outcome (Unit {0}))
    → Untouched s o
    → Untouched s (behind a o)
behind-Untouched a s (ret _ t) k = k
behind-Untouched a s (stop w) k = tt

one_less : (n : ℕ) → suc n - 1 ≡ n
one_less n = omega arith

-- While the command is open the loop of the retries is nothing but its delays.
await_lock-delays :
    (retries : ℕ) (s : Ltem)
    → s.atcmd.is_open ≡ true
    → await_lock retries s ≡ behind false (delays (retries - 1) s)
unfolding await_lock delays
await_lock-delays zero s y = refl
await_lock-delays (suc zero) s y = ap (λ (c : Bool). if c then ret false s else ret true s) y
await_lock-delays (suc (suc k)) s y =
    ap
      (λ (c : Bool).
        if c
        then elim (delay lockretry_interval s) [ ret _ t ↦ await_lock (suc k) t | stop w ↦ stop w ]
        else ret true s)
      y
    ∙ by_delay (delay lockretry_interval s) (delay-Yields lockretry_interval s)
        (λ t e. await_lock-delays (suc k) t e ∙ ap (λ n. behind false (delays n t)) (one_less k))
    ∙ ap (λ n. behind false (delays n s)) (sym (one_less (suc k)))
  where
    by_delay :
        (o : Outcome (Unit {0}))
        → Yields (record s { now = s.now + lockretry_interval }) o
        → ((t : Ltem) → t.atcmd.is_open ≡ true → await_lock (suc k) t ≡ behind false (delays k t))
        → elim o as (λ _. Outcome Bool) [ ret _ t ↦ await_lock (suc k) t | stop w ↦ stop w ]
          ≡ behind false (elim o [ ret _ t ↦ delays k t | stop w ↦ stop w ])
    by_delay (stop w) d rec = refl
    by_delay (ret _ t) d rec = rec t (ap (λ (a : Atcmd). a.is_open) d.atcmd ∙ y)

atcmd_init-Fresh : (cmd : Bytes) (s : Ltem) → Fresh cmd (atcmd_init cmd s).atcmd
unfolding atcmd_init reset_cmd_buffer
atcmd_init-Fresh cmd s = record {
  is_open = refl;
  pending = refl;
  text = refl;
  timer = refl;
  no_parser = refl;
}

-- What an attempt at the lock does: with no command open it returns at once with one of its own; with
-- one open it is the delays between the retries, and then a refusal.
abbrev pub Locks : Bytes → ℕ → Ltem → Outcome Bool → Type 0
Locks cmd retries s o = elim s.atcmd.is_open [
  | false ↦ (o ≡ ret true (atcmd_init cmd s)) × Fresh cmd (atcmd_init cmd s).atcmd
  | true ↦ (o ≡ behind false (delays (retries - 1) s)) × Untouched s o
]

pub acquire_lock-open :
    (cmd : Bytes) (retries : ℕ) (s : Ltem)
    → s.atcmd.is_open ≡ true
    → acquire_lock cmd retries s ≡ behind false (delays (retries - 1) s)
unfolding acquire_lock
acquire_lock-open cmd retries s y =
    ap (λ (c : Bool). if c then taken (await_lock retries s) else ret true (atcmd_init cmd s)) y
    ∙ ap taken (await_lock-delays retries s y)
    ∙ passed (delays (retries - 1) s)
  where
    taken : Outcome Bool → Outcome Bool
    taken o = elim o [
      | ret true t ↦ ret true (atcmd_init cmd t)
      | ret false t ↦ ret false t
      | stop w ↦ stop w
    ]

    passed : (o : Outcome (Unit {0})) → taken (behind false o) ≡ behind false o
    passed (ret _ t) = refl
    passed (stop w) = refl

acquire_lock-closed :
    (cmd : Bytes) (retries : ℕ) (s : Ltem)
    → s.atcmd.is_open ≡ false
    → acquire_lock cmd retries s ≡ ret true (atcmd_init cmd s)
unfolding acquire_lock
acquire_lock-closed cmd retries s n =
    ap
      (λ (c : Bool).
        if c
        then elim (await_lock retries s) [
          | ret true t ↦ ret true (atcmd_init cmd t)
          | ret false t ↦ ret false t
          | stop w ↦ stop w
        ]
        else ret true (atcmd_init cmd s))
      n

-- `atcmd__acquireLock` with no command open returns true at once, with the command that `s_atcmdInit`
-- starts, open and pending, with its text, and nothing else done. With one open it does nothing but wait:
-- it is one delay of 50 ms less than it has retries (none for no retries), and then the answer false,
-- whatever interrupts come in the meantime; it stops only where the interrupt of such a delay does, and
-- the open command is as it was.
pub acquire_lock-Locks :
    (cmd : Bytes) (retries : ℕ) (s : Ltem) → Locks cmd retries s (acquire_lock cmd retries s)
acquire_lock-Locks cmd retries s = by_lock s.atcmd.is_open refl
  where
    by_lock : (c : Bool) → s.atcmd.is_open ≡ c → elim c as (λ _. Type 0) [
      | false ↦
          (acquire_lock cmd retries s ≡ ret true (atcmd_init cmd s))
          × Fresh cmd (atcmd_init cmd s).atcmd
      | true ↦
          (acquire_lock cmd retries s ≡ behind false (delays (retries - 1) s))
          × Untouched s (acquire_lock cmd retries s)
    ]
    by_lock false n = (acquire_lock-closed cmd retries s n, atcmd_init-Fresh cmd s)
    by_lock true y =
        let e = acquire_lock-open cmd retries s y in
        (
          e,
          subst (Untouched s) (sym e)
              (behind-Untouched false s _ (delays-Untouched (retries - 1) s)),
        )
