-- ===== src/Service/Acks/Isolation.antt =====
-- pkg/service/service.go: the channels of the waiting goroutines, when other messages arrive.
use control_protocol.Prelude.{
  ℕ, ◌<◌, ◌≡◌, ◌≢◌, refl, sym, ap, subst, ◌∙◌, ◌⊎◌, true, if_both, Option, none, some, inl, List,
  arith, ◌==ℕ◌,
}
use control_protocol.Prelude.Equality.{nat_eq, bytes_eq, bytes_equal_iff, ◌==◌}
use control_protocol.Prelude.Maps.{lookup, lookup-insert, lookup-erase, lookup-empty}
use control_protocol.Errors.{Error, ok}
use control_protocol.Message.{Message}
use control_protocol.Service.{ack_op_code, Handler}
use control_protocol.Service.Acks.{
  Channel, Service, Outcome, goes_on, blocks, panics, carried_error, send_start, send_end, put_ack,
  fill, accept_ack, accept, new_service, write_message, register_ack, run_handler,
}
use control_protocol.Service.Acks.Delivery.{Waits}

module _ {S : Type 0} where
  -- The waiting goroutines have different channels, all of them made.
  pub record IsTidy (c : Service S) : Type 0 where
    pub apart :
        (u v : List ℕ) (i : ℕ)
        → lookup u c.waiting_acks ≡ some i
        → lookup v c.waiting_acks ≡ some i
        → (u == v) ≡ true
    pub made : (u : List ℕ) (i : ℕ) → lookup u c.waiting_acks ≡ some i → i < c.next_channel

  -- What differs in the fields that the acks leave alone does not matter.
  pub same_waiting :
      (c d : Service S)
      → d.waiting_acks ≡ c.waiting_acks
      → d.next_channel ≡ c.next_channel
      → IsTidy c
      → IsTidy d
  same_waiting c d w n t = record {
    apart = λ u v i p q. t.apart u v i (ap (lookup u) (sym w) ∙ p) (ap (lookup v) (sym w) ∙ q);
    made = λ u i p. ground (arith, t.made u i (ap (lookup u) (sym w) ∙ p));
  }

  pub new_service-IsTidy : (handler : Handler S) (s : S) → IsTidy (new_service handler s)
  unfolding new_service
  new_service-IsTidy handler s = record {
    apart = λ u v i p q. ground (arith, p, lookup-empty {V = ℕ} u);
    made = λ u i p. ground (arith, p, lookup-empty {V = ℕ} u);
  }

  pub send_end-IsTidy : (c : Service S) (uuid : List ℕ) → IsTidy c → IsTidy (send_end c uuid)
  unfolding send_end
  send_end-IsTidy c uuid t = record {
    apart = λ u v i p q. ground (
      arith,
      p,
      q,
      t.apart u v i,
      lookup-erase uuid u c.waiting_acks,
      lookup-erase uuid v c.waiting_acks,
    );
    made = λ u i p. ground (arith, p, t.made u i, lookup-erase uuid u c.waiting_acks);
  }

  register_ack-IsTidy : (c : Service S) (uuid : List ℕ) → IsTidy c → IsTidy (register_ack c uuid)
  unfolding register_ack
  register_ack-IsTidy c uuid t = record {
    apart = λ u v i p q. ground (
      arith,
      p,
      q,
      t.apart u v i,
      t.made u i,
      t.made v i,
      bytes_equal_iff uuid u,
      bytes_equal_iff uuid v,
      bytes_equal_iff u v,
      lookup-insert uuid u c.next_channel c.waiting_acks,
      lookup-insert uuid v c.next_channel c.waiting_acks,
    );
    made =
        λ u i p. ground (arith, p, t.made u i, lookup-insert uuid u c.next_channel c.waiting_acks);
  }

  pub send_start-IsTidy :
      (c c' : Service S) (uuid : List ℕ) (opcode : ℕ) (payload : Option (List ℕ)) (i : ℕ)
      → IsTidy c
      → send_start c uuid opcode payload ≡ ok (c', i)
      → IsTidy c'
  unfolding send_start write_message register_ack
  send_start-IsTidy c c' uuid opcode payload i t h =
      same_waiting (register_ack c uuid) c' (ground (arith, h)) (ground (arith, h))
        (register_ack-IsTidy c uuid t)

  -- How an accepted message may change the channels: only one that waits for it.
  record Touches (c c' : Service S) (m : Message) : Type 0 where
    same_acks : c'.waiting_acks ≡ c.waiting_acks
    same_next : c'.next_channel ≡ c.next_channel
    others :
        (j : ℕ)
        → (lookup j c'.channels ≡ lookup j c.channels) ⊎ (lookup m.uuid c.waiting_acks ≡ some j)

  abbrev Going : (Service S → Type 0) → Outcome S → Type 0
  Going P (goes_on c) = P c
  Going P blocks = Unit
  Going P panics = Unit

  untouched : (c : Service S) (m : Message) → Touches c c m
  untouched c m = record { same_acks = refl; same_next = refl; others = λ j. inl refl }

  put_ack-Touches :
      (c : Service S) (m : Message) (i : ℕ) (ch : Option Channel) (e : Option Error)
      → lookup m.uuid c.waiting_acks ≡ some i
      → Going (λ c'. Touches c c' m) (put_ack c i ch e)
  unfolding put_ack fill
  put_ack-Touches c m i none e w = untouched c m
  put_ack-Touches c m i (some ch) e w =
      if_both (Going (λ c'. Touches c c' m)) ch.closed tt (fill-Touches ch.holds)
    where
      fill-Touches : (h : Option (Option Error)) → Going (λ c'. Touches c c' m) (fill c i h e)
      fill-Touches (some x) = tt
      fill-Touches none = record {
        same_acks = refl;
        same_next = refl;
        others = λ j.
            ground
              (arith, w, lookup-insert i j (record { holds = some e; closed = true }) c.channels);
      }

  accept_ack-Touches :
      (c : Service S) (m : Message) (i : Option ℕ)
      → lookup m.uuid c.waiting_acks ≡ i
      → Going (λ c'. Touches c c' m) (accept_ack c m i)
  unfolding accept_ack
  accept_ack-Touches c m none w = untouched c m
  accept_ack-Touches c m (some i) w =
      put_ack-Touches c m i (lookup i c.channels) (carried_error m) w

  accept-Touches : (c : Service S) (m : Message) → Going (λ c'. Touches c c' m) (accept c m)
  unfolding accept run_handler
  accept-Touches c m =
      if_both (Going (λ c'. Touches c c' m)) (m.opcode ==ℕ ack_op_code)
        (accept_ack-Touches c m (lookup m.uuid c.waiting_acks) refl)
        (record { same_acks = refl; same_next = refl; others = λ j. inl refl })

  touches : (c c' : Service S) (m : Message) → accept c m ≡ goes_on c' → Touches c c' m
  touches c c' m h = subst (Going (λ c'. Touches c c' m)) h (accept-Touches c m)

  pub accept-IsTidy :
      (c c' : Service S) (m : Message) → IsTidy c → accept c m ≡ goes_on c' → IsTidy c'
  accept-IsTidy c c' m t h =
      same_waiting c c' (touches c c' m h).same_acks (touches c c' m h).same_next t

  -- Accepting a message with another uuid, an ack or not, leaves a waiting goroutine waiting on its
  -- unused channel.
  pub accept-Waits :
      (c c' : Service S) (m : Message) (uuid : List ℕ) (i : ℕ)
      → IsTidy c
      → Waits c uuid i
      → m.uuid ≢ uuid
      → accept c m ≡ goes_on c'
      → Waits c' uuid i
  accept-Waits c c' m uuid i t w n h = record {
    registered = ap (lookup uuid) (touches c c' m h).same_acks ∙ w.registered;
    unused = ground (
      arith,
      (touches c c' m h).others i,
      w,
      n,
      t.apart m.uuid uuid i,
      bytes_equal_iff m.uuid uuid,
    );
  }
