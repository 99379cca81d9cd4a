-- ===== src/Queue/Lossy/Preserve.antt =====
-- Every call keeps a queue of connection/queue/lossy.rs valid, and loses or reorders no item.
use bevy_slinet.Common.{
  ℕ, ◌≤◌, ◌≡◌, ◌∙◌, inl, inr, refl, ap, List, [], ◌∷◌, ◌++◌, map, ◌==◌, if◌then◌else◌, length,
  arith, word_max, add_word, sub_word, append_assoc, append-nil, subst, sym,
}
use bevy_slinet.Queue.Lossy.{
  Shared, Signal, changed_all, OverflowPolicy, item, lossy_channel, close_and_drain, clone_sender,
  drop_sender,
}
use bevy_slinet.Queue.Lossy.Room.{weigh}
use bevy_slinet.Queue.Lossy.Invariant.{IsValid}
use bevy_slinet.Queue.Lossy.Transfer.{Sound, unchanged, offers-Sound, awaits-Sound, receives-Sound}
use bevy_slinet.Queue.Lossy.History.{
  Call, clones, drops, closes, offers, awaits, receives, Effect, effect, run, quiet,
}

module _ {ℓ} {A : Type ℓ} where
  -- The count of senders bears on no entry.
  senders-Sound :
      (q : Shared A) (n : ℕ) (log : List Signal)
      → IsValid q
      → Sound q (quiet (record q { state = record (q.state) { senders = n }; signals = log }))
  senders-Sound q n log v = record {
    valid = record {
      counted = v.counted;
      few = v.few;
      light = v.light;
      items_word = v.items_word;
      bytes_word = v.bytes_word;
      drained = v.drained;
    };
    same_items = refl;
    same_bytes = refl;
    same_policy = refl;
    order = append-nil (map item q.items);
  }

  -- Every call keeps the queue valid, and loses, adds and reorders no item.
  pub effect-Sound : (q : Shared A) (c : Call A) → IsValid q → Sound q (effect q c)
  unfolding effect clone_sender drop_sender close_and_drain
  effect-Sound q clones v = senders-Sound q (add_word q.senders 1) q.signals v
  effect-Sound q drops v =
      senders-Sound q (sub_word q.senders 1)
        (if sub_word q.senders 1 == 0 then changed_all ∷ q.signals else q.signals) v
  effect-Sound q closes v = record {
    valid = record {
      counted = refl;
      few = omega arith;
      light = omega arith;
      items_word = v.items_word;
      bytes_word = v.bytes_word;
      drained = inr refl;
    };
    same_items = refl;
    same_bytes = refl;
    same_policy = refl;
    order = refl;
  }
  effect-Sound q (offers value bytes can_evict) v = offers-Sound q value bytes can_evict v
  effect-Sound q (awaits value bytes) v = awaits-Sound q value bytes v
  effect-Sound q (receives is_ready) v = receives-Sound q is_ready v

  Sound-then :
      (q : Shared A) (e f : Effect A)
      → Sound q e
      → Sound e.after f
      → Sound q
          (record { entered = e.entered ++ f.entered; left = e.left ++ f.left; after = f.after })
  Sound-then q e f s t = record {
    valid = t.valid;
    same_items = t.same_items ∙ s.same_items;
    same_bytes = t.same_bytes ∙ s.same_bytes;
    same_policy = t.same_policy ∙ s.same_policy;
    order =
        sym (append_assoc (map item q.items) e.entered f.entered)
        ∙ ap (λ l. l ++ f.entered) s.order
        ∙ append_assoc e.left (map item e.after.items) f.entered
        ∙ ap (◌++◌ e.left) t.order
        ∙ sym (append_assoc e.left f.left (map item f.after.items));
  }

  pub run-Sound : (q : Shared A) (cs : List (Call A)) → IsValid q → Sound q (run q cs)
  unfolding run
  run-Sound q [] v = unchanged q v
  run-Sound q (c ∷ cs) v =
      Sound-then q (effect q c) (run (effect q c).after cs) first
        (run-Sound (effect q c).after cs first.valid)
    where
      first : Sound q (effect q c)
      first = effect-Sound q c v

  pub lossy_channel-IsValid :
      (max_items max_bytes : ℕ) (policy : OverflowPolicy)
      → max_items ≤ word_max
      → max_bytes ≤ word_max
      → IsValid (lossy_channel {A = A} max_items max_bytes policy)
  unfolding lossy_channel
  lossy_channel-IsValid max_items max_bytes policy h k = record {
    counted = refl;
    few = omega arith;
    light = omega arith;
    items_word = h;
    bytes_word = k;
    drained = inl refl;
  }

  -- A new queue, after any calls of its senders and its receiver: the byte count is the sum of the
  -- weights, the items and bytes stay within the limits, and the items accepted are, in order, those
  -- that were evicted, received or drained and then those still queued.
  pub run-lossy_channel :
      (max_items max_bytes : ℕ) (policy : OverflowPolicy) (cs : List (Call A))
      → max_items ≤ word_max
      → max_bytes ≤ word_max
      → let e = run (lossy_channel max_items max_bytes policy) cs in
        (e.after.bytes ≡ weigh e.after.items)
        × (length e.after.items ≤ max_items)
        × (e.after.bytes ≤ max_bytes)
        × (e.entered ≡ e.left ++ map item e.after.items)
  unfolding lossy_channel
  run-lossy_channel max_items max_bytes policy cs h k = (
    s.valid.counted,
    subst (λ n. length e.after.items ≤ n) s.same_items s.valid.few,
    subst (λ n. e.after.bytes ≤ n) s.same_bytes s.valid.light,
    s.order,
  )
    where
      e : Effect A
      e = run (lossy_channel max_items max_bytes policy) cs

      s : Sound (lossy_channel max_items max_bytes policy) e
      s = run-Sound _ cs (lossy_channel-IsValid max_items max_bytes policy h k)
