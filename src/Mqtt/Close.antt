-- ===== src/Mqtt/Close.antt =====
-- The state that `mqtt_close` leaves.
use cr_lte_modem.Base.{
  ℕ, ◌≡◌, refl, sym, ap, ◌∙◌, ◌≢◌, ◌⊎◌, inl, inr, Bool, Option, none, some, List, [], ◌∷◌, map,
  ◌==◌, ==_iff, Bool-cases, if◌then◌else◌,
}
use mathlib.Core.Bool.{false≢true}
use mathlib.Core.Path.{subst}
use cr_lte_modem.Device.{
  ◌>>=◌, ◌>>◌, RxBuf, Subscription, Mqtt, Ltem, Outcome, ret, stop, undefined, peer_none, peer_mqtt,
}
use cr_lte_modem.Mqtt.{
  with_mqtt, get_mqtt, release_buffers, close_iop, put_buffers, update_mqtt, clear_table,
  close_if_open, mqtt_close, finish_close,
}

-- Every slot holds a buffer; those of MQTT have become free and are otherwise as they were, and so are
-- all others.
abbrev pub Released : List (Option RxBuf) → List (Option RxBuf) → Type 0
Released [] [] = Unit
Released [] (y ∷ after) = ⊥
Released (none ∷ bufs) after = ⊥
Released (some b ∷ bufs) [] = ⊥
Released (some b ∷ bufs) (y ∷ after) =
    (((b.data_peer ≡ peer_mqtt) × (y ≡ some (record b { data_peer = peer_none })))
      ⊎ ((b.data_peer ≢ peer_mqtt) × (y ≡ some b)))
    × Released bufs after

-- some slot holds NULL
abbrev pub HasNull : List (Option RxBuf) → Type 0
HasNull [] = ⊥
HasNull (none ∷ bufs) = Unit
HasNull (some b ∷ bufs) = HasNull bufs

abbrev Releases : List (Option RxBuf) → Option (List (Option RxBuf)) → Type 0
Releases bufs none = HasNull bufs
Releases bufs (some after) = Released bufs after

release_buffers-Releases : (bufs : List (Option RxBuf)) → Releases bufs (release_buffers bufs)
unfolding release_buffers
release_buffers-Releases [] = tt
release_buffers-Releases (none ∷ bufs) = tt
release_buffers-Releases (some b ∷ bufs) =
    by_rest (release_buffers bufs) (release_buffers-Releases bufs)
  where
    freed :
        (c : RxBuf)
        → let y : Option RxBuf =
            some (if c.data_peer == peer_mqtt then record c { data_peer = peer_none } else c) in
          ((c.data_peer ≡ peer_mqtt) × (y ≡ some (record c { data_peer = peer_none })))
          ⊎ ((c.data_peer ≢ peer_mqtt) × (y ≡ some c))
    freed c = elim (Bool-cases (c.data_peer == peer_mqtt)) [
      | inl e ↦ inl (
        (==_iff _ _).0 e,
        ap (λ (k : Bool). some (if k then record c { data_peer = peer_none } else c)) e,
      )
      | inr n ↦ inr (
        (λ z. false≢true (sym n ∙ (==_iff _ _).1 z)),
        ap (λ (k : Bool). some (if k then record c { data_peer = peer_none } else c)) n,
      )
    ]

    by_rest :
        (o : Option (List (Option RxBuf)))
        → Releases bufs o
        → Releases (some b ∷ bufs) (elim o [
          | none ↦ none
          | some rest ↦ some (
              some (if b.data_peer == peer_mqtt then record b { data_peer = peer_none } else b)
              ∷ rest)
        ])
    by_rest none k = k
    by_rest (some rest) k = (freed b, k)

-- What a close leaves: a client that is closed, with an empty table, its buffers and none but its own
-- released, and nothing sent.
pub record Closed (m : Mqtt) (s t : Ltem) : Type 0 where
  pub client :
      t.mqtt
      ≡ some (record m {
        state = 0;
        subscriptions =
            map
              (λ (u : Subscription). record u { topic_name = []; receiver_func = none })
              m.subscriptions;
      })
  pub buffers : Released s.iop.rx_data_bufs t.iop.rx_data_bufs
  pub connection : t.iop.peer_type_map.mqtt_connection ≡ 0
  pub silent : t.sent ≡ s.sent
  pub queue : t.iop.tx_buf ≡ s.iop.tx_buf
  pub command : t.atcmd ≡ s.atcmd

abbrev pub Closes : Mqtt → Ltem → Outcome (Unit {0}) → Type 0
Closes m s (ret u t) = Closed m s t
Closes m s (stop w) = (w ≡ undefined) × HasNull s.iop.rx_data_bufs

finish_close-Closes :
    (fuel : ℕ) (m : Mqtt) (s : Ltem)
    → Closes m s (finish_close fuel (record s { mqtt = some (record m { state = 0 }) }))
unfolding finish_close close_iop put_buffers clear_table with_mqtt update_mqtt get_mqtt
    close_if_open
finish_close-Closes fuel m s =
    by_buffers (release_buffers s.iop.rx_data_bufs) (release_buffers-Releases s.iop.rx_data_bufs)
  where
    by_buffers :
        (o : Option (List (Option RxBuf)))
        → Releases s.iop.rx_data_bufs o
        → Closes m s (
            (put_buffers o >> (clear_table >> (get_mqtt >>= λ x. close_if_open fuel x)))
              (record s { mqtt = some (record m { state = 0 }) }))
    by_buffers none k = (refl, k)
    by_buffers (some bufs) k = record {
      client = refl;
      buffers = k;
      connection = refl;
      silent = refl;
      queue = refl;
      command = refl;
    }

-- `mqtt_close` on a client whose service was created: where a slot for data buffers holds NULL it reads
-- through it, which is undefined; where every slot holds a buffer it closes the client, empties its table
-- (the name and the receiver of every entry), makes the buffers of MQTT free and leaves those of every
-- other peer as they were, ends its connection, leaves the command as it was, and, whether the client
-- was open or not, sends nothing to the modem.
pub mqtt_close-Closes :
    (fuel : ℕ) (m : Mqtt) (s : Ltem) → s.mqtt ≡ some m → Closes m s (mqtt_close fuel s)
unfolding mqtt_close with_mqtt update_mqtt
mqtt_close-Closes fuel m s h =
    subst (λ o. Closes m s ((update_mqtt (λ x. record x { state = 0 }) o >> finish_close fuel) s))
      (sym h) (finish_close-Closes fuel m s)
