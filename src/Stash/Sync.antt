-- ===== src/Stash/Sync.antt =====
-- `send` and `recv` of lib/module/stash.cpp: the list of ids that bob sends is the one that alice
-- keeps.
use ait_qkd.Prelude.{
  ℕ, ◌^◌, ◌<◌, ◌≡◌, refl, sym, ◌∙◌, ap, List, [], ◌∷◌, ◌++◌, map, length, All, arith,
}
use mathlib.Core.List.{append_assoc, append-nil}
use ait_qkd.Buffer.{
  Buffer, push_u64, push-written, pop-next, written, to_be, reset, pop_u32, unread,
}
use ait_qkd.Stash.{
  Stashed, Stash, sync_command_list, push_ids, list_message, deliver, recv_ids, recv, recv_list,
  recv_command, ok,
}

-- The ids of a stash, in order.
abbrev pub ids : List Stashed → List ℕ
ids ks = map (λ k. k.key.id) ks

-- `key_id` has 32 bits.
abbrev pub Ids32 : List Stashed → Type 0
Ids32 = All (λ k. k.key.id < 2 ^ 32)

-- The ids as they go over the wire.
abbrev wire : List Stashed → List ℕ
wire [] = []
wire (k ∷ ks) = to_be 4 k.key.id ++ wire ks

push_ids-written :
    (bs : List ℕ) (ks : List Stashed) → push_ids (written bs) ks ≡ written (bs ++ wire ks)
unfolding push_ids
push_ids-written bs [] = ap written (sym (append-nil bs))
push_ids-written bs (k ∷ ks) =
    ap (λ b. push_ids b ks) (push-written 4 k.key.id bs)
    ∙ push_ids-written (bs ++ to_be 4 k.key.id) ks
    ∙ ap written (append_assoc bs (to_be 4 k.key.id) (wire ks))

recv_ids-wire :
    (ks : List Stashed) (b : Buffer) (peer : List ℕ)
    → Ids32 ks
    → unread b ≡ wire ks
    → recv_ids (length ks) b peer ≡ (ok tt, peer ++ ids ks)
unfolding recv_ids
recv_ids-wire [] b peer h e = ap (λ l. (ok tt, l)) (sym (append-nil peer))
recv_ids-wire (k ∷ ks) b peer h e =
    let (now, rest) = pop-next 4 k.key.id b (wire ks) (omega arith) (omega (arith, h.0)) e in
    rw (now, recv_ids)
      (recv_ids-wire ks _ (peer ++ k.key.id ∷ []) h.1 rest
        ∙ ap (λ l. (ok tt, l)) (append_assoc peer (k.key.id ∷ []) (ids ks)))

list_bytes : Stash → List ℕ
list_bytes s = to_be 4 sync_command_list ++ (to_be 8 (length s.stash) ++ wire s.stash)

list_message-bytes : (s : Stash) → (list_message s).body ≡ written (list_bytes s)
unfolding list_message list_bytes
list_message-bytes s =
    ap (λ b. push_ids (push_u64 b (length s.stash)) s.stash) (push-written 4 sync_command_list [])
    ∙ ap (λ b. push_ids b s.stash) (push-written 8 (length s.stash) (to_be 4 sync_command_list))
    ∙ push_ids-written (to_be 4 sync_command_list ++ to_be 8 (length s.stash)) s.stash
    ∙ ap written
        (append_assoc (to_be 4 sync_command_list) (to_be 8 (length s.stash)) (wire s.stash))

-- `recv` of the message that `send` made is ok, and alice's list of the keys of her peer is then
-- the ids of bob's keys in his order, whatever it was before, if these have 32 bits and there are
-- less than 2 ^ 64 of them.
pub recv-list_message :
    (alice bob : Stash)
    → Ids32 bob.stash
    → length bob.stash < 2 ^ 64
    → recv alice (deliver (list_message bob)) ≡ (ok tt, record alice { peer_stash = ids bob.stash })
unfolding recv deliver list_message recv_command recv_list reset
recv-list_message alice bob h small =
    ap (λ (b : Buffer). recv_command alice (pop_u32 (reset b))) (list_message-bytes bob) ∙ rest
  where
    start : Buffer
    start = record { bytes = list_bytes bob; position = 0 }

    rest : recv_command alice (pop_u32 start) ≡ (ok tt, record alice { peer_stash = ids bob.stash })
    rest =
        let (p, e) =
          pop-next 4 sync_command_list start (to_be 8 (length bob.stash) ++ wire bob.stash)
            (omega arith) (omega arith) (unfold list_bytes in refl) in
        let (q, f) =
          pop-next 8 (length bob.stash) (record start { position = 4 }) (wire bob.stash)
            (omega arith) (omega (arith, small)) e in
        rw (p, recv_command)
          (rw (q, recv_list) (rw (recv_ids-wire bob.stash (record start { position = 12 }) [] h f)))
