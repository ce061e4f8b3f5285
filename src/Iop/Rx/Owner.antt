-- ===== src/Iop/Rx/Owner.antt =====
-- `s_getDataBuffer`: who owns which data buffer.
use cr_lte_modem.Base.{
  ℕ, zero, suc, ◌+◌, ◌<◌, ◌≡◌, refl, sym, ap, ◌∙◌, ◌≢◌, ◌⊎◌, inl, inr, false, Option, none, some,
  List, [], ◌∷◌, arith, ◌==◌, ==_iff, if-elim, Bool-cases, length,
}
use mathlib.Core.Bool.{false≢true}
use mathlib.Core.Path.{subst}
use cr_lte_modem.Device.{RxBuf, no_buffer, peer_none}
use cr_lte_modem.Iop.Rx.{slot, rx_buf_create, databuf_sz, find_owned, claim_free, get_data_buffer}

-- the peer that a slot's buffer belongs to (none for a slot that holds NULL)
abbrev pub peer_of : Option RxBuf → Option ℕ
peer_of none = none
peer_of (some b) = some (b.data_peer)

abbrev pub owner : List (Option RxBuf) → ℕ → Option ℕ
owner bufs j = peer_of (slot bufs j)

-- no buffer belongs to the peer
abbrev pub Unowned : ℕ → List (Option RxBuf) → Type 0
Unowned peer bufs = (j : ℕ) → owner bufs j ≢ some peer

-- every slot holds a buffer that is in use
abbrev pub AllTaken : List (Option RxBuf) → Type 0
AllTaken [] = Unit
AllTaken (none ∷ bufs) = ⊥
AllTaken (some b ∷ bufs) = (b.data_peer ≢ peer_none) × AllTaken bufs

-- the slot found belongs to the peer
pub record Owned (peer : ℕ) (bufs : List (Option RxBuf)) (i k : ℕ) : Type 0 where
  pub place : ℕ
  pub index : k ≡ i + place
  pub bound : place < length bufs
  pub owns : owner bufs place ≡ some peer

abbrev pub Finds : ℕ → List (Option RxBuf) → ℕ → Option ℕ → Type 0
Finds peer bufs i (some k) = Owned peer bufs i k
Finds peer bufs i none = Unowned peer bufs

Finds-skip :
    (peer : ℕ) (x : Option RxBuf) (bufs : List (Option RxBuf)) (i : ℕ) (o : Option ℕ)
    → owner (x ∷ bufs) 0 ≢ some peer
    → Finds peer bufs (i + 1) o
    → Finds peer (x ∷ bufs) i o
Finds-skip peer x bufs i (some k) h f = record {
  place = suc f.place;
  index = omega (arith, f.index);
  bound = omega (arith, f.bound);
  owns = f.owns;
}
Finds-skip peer x bufs i none h f = Unowned-skip
  where
    Unowned-skip : Unowned peer (x ∷ bufs)
    Unowned-skip zero = h
    Unowned-skip (suc j) = f j

find_owned-Finds :
    (peer : ℕ) (bufs : List (Option RxBuf)) (i : ℕ) → Finds peer bufs i (find_owned peer bufs i)
unfolding find_owned
find_owned-Finds peer [] i = λ j h. ground arith
find_owned-Finds peer (none ∷ bufs) i =
    Finds-skip peer none bufs i (find_owned peer bufs (i + 1)) (λ h. ground arith)
      (find_owned-Finds peer bufs (i + 1))
find_owned-Finds peer (some b ∷ bufs) i =
    if-elim (Finds peer (some b ∷ bufs) i) (b.data_peer == peer)
      (λ e. record {
        place = 0;
        index = omega arith;
        bound = omega arith;
        owns = ap some ((==_iff _ _).0 e);
      })
      (λ n.
        Finds-skip peer (some b) bufs i (find_owned peer bufs (i + 1)) (λ h. ground arith)
          (find_owned-Finds peer bufs (i + 1)))

-- The slot that a claim gives, before and after: one that held NULL, with a new buffer, or one whose
-- buffer was free or the peer's own; but for its peer that buffer is as it was.
abbrev pub Taken : ℕ → Option RxBuf → Option RxBuf → Type 0
Taken peer none y = y ≡ some (record (rx_buf_create databuf_sz) { data_peer = peer })
Taken peer (some b) y =
    (b.data_peer ≡ peer_none ⊎ b.data_peer ≡ peer) × (y ≡ some (record b { data_peer = peer }))

-- What a claim by a peer gives: a buffer of its own in a slot that was free for it with the other slots
-- as they were, or, where every slot is taken, the slots as they were and the index 255.
pub record Given (peer : ℕ) (bufs : List (Option RxBuf)) (i : ℕ) (out : List (Option RxBuf) × ℕ)
    : Type 0 where
  pub size : length out.0 ≡ length bufs
  pub owned : Owned peer out.0 i out.1
  pub taken : Taken peer (slot bufs owned.place) (slot out.0 owned.place)
  pub others : (j : ℕ) → j ≢ owned.place → slot out.0 j ≡ slot bufs j

abbrev pub Claims : ℕ → List (Option RxBuf) → ℕ → List (Option RxBuf) × ℕ → Type 0
Claims peer bufs i out =
    Given peer bufs i out ⊎ ((out.0 ≡ bufs) × (out.1 ≡ no_buffer) × AllTaken bufs)

Given-here :
    (peer : ℕ) (x : Option RxBuf) (b : RxBuf) (bufs : List (Option RxBuf)) (i : ℕ)
    → b.data_peer ≡ peer
    → Taken peer x (some b)
    → Given peer (x ∷ bufs) i (some b ∷ bufs, i)
Given-here peer x b bufs i e t = record {
  size = refl;
  owned = record { place = 0; index = omega arith; bound = omega arith; owns = ap some e };
  taken = t;
  others = other;
}
  where
    other : (j : ℕ) → j ≢ 0 → slot (some b ∷ bufs) j ≡ slot (x ∷ bufs) j
    other zero h = absurd (h refl)
    other (suc j) h = refl

Claims-skip :
    (peer : ℕ) (b : RxBuf) (bufs : List (Option RxBuf)) (i : ℕ) (out : List (Option RxBuf) × ℕ)
    → b.data_peer ≢ peer_none
    → Claims peer bufs (i + 1) out
    → Claims peer (some b ∷ bufs) i (some b ∷ out.0, out.1)
Claims-skip peer b bufs i out ne (inr (e, n, t)) = inr (ap (λ r. some b ∷ r) e, n, (ne, t))
Claims-skip peer b bufs i out ne (inl g) = inl (record {
  size = ap suc g.size;
  owned = record {
    place = suc g.owned.place;
    index = omega (arith, g.owned.index);
    bound = omega (arith, g.owned.bound);
    owns = g.owned.owns;
  };
  taken = g.taken;
  others = other;
})
  where
    other : (j : ℕ) → j ≢ suc g.owned.place → slot (some b ∷ out.0) j ≡ slot (some b ∷ bufs) j
    other zero h = refl
    other (suc j) h = g.others j (λ e. h (ap suc e))

claim_free-Claims :
    (peer : ℕ) (bufs : List (Option RxBuf)) (i : ℕ) → Claims peer bufs i (claim_free peer bufs i)
unfolding claim_free
claim_free-Claims peer [] i = inr (refl, refl, tt)
claim_free-Claims peer (none ∷ bufs) i = inl (Given-here peer none _ bufs i refl refl)
claim_free-Claims peer (some b ∷ bufs) i =
    if-elim (Claims peer (some b ∷ bufs) i) (b.data_peer == peer_none)
      (λ e. inl (Given-here peer (some b) _ bufs i refl (inl ((==_iff _ _).0 e), refl)))
      (λ n.
        Claims-skip peer b bufs i (claim_free peer bufs (i + 1)) (λ h. ground arith)
          (claim_free-Claims peer bufs (i + 1)))

own_buffer : (peer : ℕ) (x : Option RxBuf) → peer_of x ≡ some peer → Taken peer x x
own_buffer peer none e = absurd (ground (arith, e))
own_buffer peer (some b) e =
    let own : b.data_peer ≡ peer = ground (arith, e) in
    (inr own, ap (λ p. some (record b { data_peer = p })) own)

-- `s_getDataBuffer` either gives a peer a buffer of its own: the slot of the index that it answers held
-- NULL and has a new buffer now, or held a buffer that was free or the peer's own and is the same but for
-- its peer; the other slots are as they were. Or every slot holds a buffer in use, and it answers 255 and
-- changes nothing. And either the peer had a buffer, and then the answer is the index of one that it had
-- and nothing is changed, or it had none.
pub get_data_buffer-Claims :
    (peer : ℕ) (bufs : List (Option RxBuf))
    → Claims peer bufs 0 (get_data_buffer peer bufs)
      × ((Owned peer bufs 0 (get_data_buffer peer bufs).1 × ((get_data_buffer peer bufs).0 ≡ bufs))
          ⊎ Unowned peer bufs)
unfolding get_data_buffer
get_data_buffer-Claims peer bufs = by_found (find_owned peer bufs 0) (find_owned-Finds peer bufs 0)
  where
    by_found :
        (o : Option ℕ)
        → Finds peer bufs 0 o
        → let out : List (Option RxBuf) × ℕ = elim o [
          | some i ↦ (bufs, i)
          | none ↦ claim_free peer bufs 0
        ] in
          Claims peer bufs 0 out × ((Owned peer bufs 0 out.1 × (out.0 ≡ bufs)) ⊎ Unowned peer bufs)
    by_found (some k) f = (
      inl (record {
        size = refl;
        owned = f;
        taken = own_buffer peer (slot bufs f.place) f.owns;
        others = λ j h. refl;
      }),
      inl (f, refl),
    )
    by_found none f = (claim_free-Claims peer bufs 0, inr f)

-- no peer has two buffers
abbrev pub Single : List (Option RxBuf) → Type 0
Single bufs = (p j k : ℕ) → p ≢ peer_none → owner bufs j ≡ some p → owner bufs k ≡ some p → j ≡ k

Given-Single :
    {peer : ℕ} {bufs : List (Option RxBuf)} {out : List (Option RxBuf) × ℕ}
    → Given peer bufs 0 out
    → Unowned peer bufs
    → Single bufs
    → Single out.0
Given-Single {peer} {bufs} {out} g u s p j k np oj ok = elim (Bool-cases (j == g.owned.place)) [
  | inl ej ↦ elim (Bool-cases (k == g.owned.place)) [
    | inl ek ↦ (==_iff _ _).0 ej ∙ sym ((==_iff _ _).0 ek)
    | inr nk ↦ absurd (clash j k ((==_iff _ _).0 ej) (different nk) oj ok)
  ]
  | inr nj ↦ elim (Bool-cases (k == g.owned.place)) [
    | inl ek ↦ absurd (clash k j ((==_iff _ _).0 ek) (different nj) ok oj)
    | inr nk ↦ s p j k np (kept j (different nj) oj) (kept k (different nk) ok)
  ]
]
  where
    different : {a b : ℕ} → (a == b) ≡ false → a ≢ b
    different h e = false≢true (sym h ∙ (==_iff _ _).1 e)

    kept : (a : ℕ) → a ≢ g.owned.place → owner out.0 a ≡ some p → owner bufs a ≡ some p
    kept a h o = sym (ap peer_of (g.others a h)) ∙ o

    clash :
        (a b : ℕ)
        → a ≡ g.owned.place
        → b ≢ g.owned.place
        → owner out.0 a ≡ some p
        → owner out.0 b ≡ some p
        → ⊥
    clash a b ea hb oa ob = u b (kept b hb ob ∙ sym oa ∙ ap (owner out.0) ea ∙ g.owned.owns)

-- Where no peer has two buffers, none has two after a claim.
pub get_data_buffer-Single :
    (peer : ℕ) (bufs : List (Option RxBuf)) → Single bufs → Single (get_data_buffer peer bufs).0
get_data_buffer-Single peer bufs s = elim (get_data_buffer-Claims peer bufs).1 [
  | inl (_, e) ↦ subst Single (sym e) s
  | inr u ↦ elim (get_data_buffer-Claims peer bufs).0 [
    | inr (e, _, _) ↦ subst Single (sym e) s
    | inl g ↦ Given-Single g u s
  ]
]
