-- ===== src/Rasta/Mux/Delivery.antt =====
-- rasta_red_multiplexer.c, rastaredundancy_new.c and rastamodule.c together: a packet that one
-- multiplexer sends is the packet that the other one gives to its safety layer.
use tfm_cloud_ixl_rasta.Prelude.{
  ℕ, ◌≤◌, ◌<◌, ◌≡◌, refl, sym, take, ◌∙◌, ap, subst, Bool, true, false, none, some, List, [], ◌∷◌,
  ◌++◌, length, set, get_elem?, get_elem?-set_self, set-set, arith,
}
use tfm_cloud_ixl_rasta.Rasta.Packet.{RastaPacket}
use tfm_cloud_ixl_rasta.Rasta.Codec.{
  RastaRedundancyPacket, create_redundancy_packet, bytes_to_rasta_packet,
}
use tfm_cloud_ixl_rasta.Rasta.Codec.RoundTrip.{summed}
use tfm_cloud_ixl_rasta.Rasta.Red.Outcome.{
  Outcome, returns, or_fault, write, returns->>=, lock_free,
}
use tfm_cloud_ixl_rasta.Rasta.Red.Channel.{RedundancyChannel, World}
use tfm_cloud_ixl_rasta.Rasta.Red.Receive.{encode_kept, rasta_red_f_receive}
use tfm_cloud_ixl_rasta.Rasta.Red.Placed.{write_self}
use tfm_cloud_ixl_rasta.Rasta.Red.Due.{NeverUsed, due-pushes}
use tfm_cloud_ixl_rasta.Rasta.Mux.State.{
  RedundancyMux, MuxEvent, MuxHost, MuxWorld, channel_loop, redundancy_mux_get_channel,
}
use tfm_cloud_ixl_rasta.Rasta.Mux.Send.{bytes_to_send, redundancy_mux_send}
use tfm_cloud_ixl_rasta.Rasta.Mux.Receive.{
  at_channel, discover, discovered_at, prepare, received_packet, receive_with, receive_packet,
}
use tfm_cloud_ixl_rasta.Rasta.Mux.Retrieve.{pop_packet, retrieve_at, redundancy_mux_retrieve}
use tfm_cloud_ixl_rasta.Rasta.Mux.Table.{
  redundancy_mux_send_lem, datagrams, channel_loop-set, discover_lem,
}
use tfm_cloud_ixl_rasta.Rasta.Mux.Sent.{
  with_memory, sum_of, IsSendable, sent, wrapped, received_packet-sent, queued_packet,
}

-- The channel with the index `j` is that of the sender, never deferred a packet, has nothing to
-- retrieve and room for a message, and waits for the number `n`. Nothing is locked, and no error is
-- noted.
pub record Expects (w : MuxWorld) (channel_id sender n j : ℕ) (d : RedundancyChannel) : Type 0 where
  pub known : redundancy_mux_get_channel w.mux sender ≡ some j
  pub stands : get_elem? w.mux.connected_channels j ≡ some d
  pub mux_free : w.mux.mux_locked ≡ false
  pub unused : NeverUsed d.defer_q
  pub channel_free : d.channel_locked ≡ false
  pub buffer_free : d.diagnostics_packet_buffer.locked ≡ false
  pub port : channel_id < length d.connected_channels
  pub due : d.seq_rx ≡ n
  pub empty : d.fifo_recv ≡ []
  pub room : 0 < d.fifo_size
  pub no_error : w.lasterror ≡ false

-- A queue whose first message is known gives the packet in it.
module _ (h : MuxHost) (w : MuxWorld) (id j : ℕ) (d : RedundancyChannel) (bytes : List ℕ)
    (more : List (List ℕ)) where
  abbrev popped : RastaPacket × Bool
  popped =
      bytes_to_rasta_packet h.host.big h.host.hash h.host.hash_length h.beyond h.unset_packet
        w.lasterror bytes

  retrieves :
      redundancy_mux_get_channel w.mux id ≡ some j
      → get_elem? w.mux.connected_channels j ≡ some d
      → d.fifo_recv ≡ bytes ∷ more
      → (w' : MuxWorld) × (redundancy_mux_retrieve h w id ≡ returns (popped.0, w'))
  unfolding redundancy_mux_retrieve retrieve_at pop_packet
  retrieves known g q = (
    record w {
      lasterror = popped.1;
      mux = record w.mux {
        connected_channels = set w.mux.connected_channels j (record d { fifo_recv = more });
      };
    },
    ap (retrieve_at h w) known
        ∙ returns->>= (or_fault (get_elem? w.mux.connected_channels j)) _ (ap or_fault g)
            (ap (pop_packet h w j d) q),
  )

module _ (h : MuxHost) (w : MuxWorld) (id sender n j : ℕ) (d : RedundancyChannel)
    (x : Expects w id sender n j d) (p : RastaRedundancyPacket) (number : p.red_sequence ≡ n)
    (correct : p.red_correct ≡ true) (from : p.inner.sender_id ≡ sender) (ip : List ℕ)
    (port : ℕ) where
  -- The channel with what is noted of its transport channels.
  abbrev noted : RedundancyChannel
  noted = discover w.mux.port_count ip port d

  abbrev channel_world : World
  channel_world = record {
    heap = write w.heap h.address (some p);
    lasterror = false;
    channel = noted;
  }

  -- What the channel does with the packet.
  channel_takes :
      (v : World) × (rasta_red_f_receive h.host h.address id channel_world ≡ returns v)
      × (v.channel.fifo_recv ≡ (encode_kept h.host false p.inner).0 ∷ [])
      × (v.channel.associated_id ≡ d.associated_id)
  channel_takes =
      let (ts, k, e, l) = discover_lem w.mux.port_count ip port d in
      let queue : noted.fifo_recv ≡ [] = ap (λ (c : RedundancyChannel). c.fifo_recv) e ∙ x.empty in
      let ports : id < length noted.connected_channels =
        subst (λ (c : RedundancyChannel). id < length c.connected_channels) (sym e)
          (omega (arith, l, x.port)) in
      let room : 0 < noted.fifo_size =
        subst (λ (c : RedundancyChannel). 0 < c.fifo_size) (sym e) x.room in
      let due : p.red_sequence ≡ noted.seq_rx =
        number ∙ sym x.due ∙ ap (λ (c : RedundancyChannel). c.seq_rx) (sym e) in
      let (v, r, q, _, _, same) =
        due-pushes h.host channel_world h.address id p
          (ap (λ (c : RedundancyChannel). c.channel_locked) e ∙ x.channel_free)
          (ap (λ (c : RedundancyChannel). c.diagnostics_packet_buffer.locked) e ∙ x.buffer_free)
          (subst (λ (c : RedundancyChannel). NeverUsed c.defer_q) (sym e) x.unused)
          (write_self w.heap h.address (some p)) correct ports due
          (λ full. absurd (omega (arith, room, full, ap length queue))) in
      (
        v,
        r,
        q ∙ ap (λ l. l ++ ((encode_kept h.host false p.inner).0 ∷ [])) queue,
        same ∙ ap (λ (c : RedundancyChannel). c.associated_id) e,
      )

  -- The table afterwards has the channel in the same place, with the packet's bytes to retrieve.
  table_after :
      (v : World)
      → v.channel.associated_id ≡ d.associated_id
      → let cs = set (set w.mux.connected_channels j noted) j v.channel in
        (channel_loop sender 0 cs ≡ some j) × (get_elem? cs j ≡ some v.channel)
  unfolding redundancy_mux_get_channel
  table_after v same =
      let cs = w.mux.connected_channels in
      let one : set (set cs j noted) j v.channel ≡ set cs j v.channel =
        set-set cs j noted v.channel in
      rw one (
        channel_loop-set sender 0 cs j d v.channel x.stands same ∙ x.known,
        get_elem?-set_self cs j d v.channel x.stands,
      )

  -- The multiplexer after the call, where the channel is left as in `v`.
  abbrev left_by : World → MuxWorld
  left_by v = record {
    heap = write v.heap h.address none;
    lasterror = v.lasterror;
    mux = record w.mux {
      connected_channels = set (set w.mux.connected_channels j noted) j v.channel;
    };
  }

  receive_with_lem :
      (v : World)
      → rasta_red_f_receive h.host h.address id channel_world ≡ returns v
      → receive_with h w id
          (p, false)
          (record w.mux { connected_channels = set w.mux.connected_channels j noted }, j, [])
        ≡ returns (left_by v, [])
  unfolding receive_with at_channel
  receive_with_lem v r =
      let cs = set w.mux.connected_channels j noted in
      returns->>=
        (at_channel j (rasta_red_f_receive h.host h.address id) (record w {
          heap = write w.heap h.address (some p);
          lasterror = false;
          mux = record w.mux { connected_channels = cs };
        }))
        _
        (returns->>= (or_fault (get_elem? cs j)) _
          (ap or_fault (get_elem?-set_self w.mux.connected_channels j d noted x.stands))
          (returns->>= (rasta_red_f_receive h.host h.address id channel_world) _ r refl))
        refl

  abbrev with_sender : ℕ → Outcome (MuxWorld × List MuxEvent)
  with_sender s =
      receive_with h w id (p, false)
        (prepare h w.mux s ip port (redundancy_mux_get_channel w.mux s))

  received :
      (bytes : List ℕ) (v : World)
      → received_packet h w bytes ≡ (p, false)
      → rasta_red_f_receive h.host h.address id channel_world ≡ returns v
      → receive_packet h w id bytes ip port ≡ returns (left_by v, [])
  unfolding receive_packet prepare discovered_at
  received bytes v decoded r = lock_free w.mux.mux_locked _ x.mux_free (
      ap
        (λ (q : RastaRedundancyPacket × Bool). receive_with h w id q (
          prepare h w.mux q.0.inner.sender_id ip port
            (redundancy_mux_get_channel w.mux q.0.inner.sender_id)))
        decoded
      ∙ ap with_sender from
      ∙ ap (λ o. receive_with h w id (p, false) (prepare h w.mux sender ip port o)) x.known
      ∙ ap
          (λ o.
            receive_with h w id (p, false)
              (record w.mux { connected_channels = discovered_at w.mux j ip port o }, j, []))
          x.stands
      ∙ receive_with_lem v r)

  -- The datagram that is decoded to the packet is received, and the packet is then retrieved.
  received_then_retrieved :
      (bytes : List ℕ)
      → received_packet h w bytes ≡ (p, false)
      → (w' : MuxWorld) × (w'' : MuxWorld) × (failed : Bool) × (receive_packet h w id bytes ip port
          ≡ returns (w', []))
        × (redundancy_mux_retrieve h w' sender
            ≡ returns (
              (bytes_to_rasta_packet h.host.big h.host.hash h.host.hash_length h.beyond
                  h.unset_packet failed
                  (encode_kept h.host false p.inner).0).0,
              w'',
            ))
  unfolding redundancy_mux_get_channel
  received_then_retrieved bytes decoded =
      let (v, r, q, same) = channel_takes in
      let (known, stands) = table_after v same in
      let (w'', e) =
        retrieves h (left_by v) sender j v.channel (encode_kept h.host false p.inner).0 [] known
          stands q in
      (left_by v, w'', v.lasterror, received bytes v decoded r, e)

sent_then_retrieved :
    (h : MuxHost) (memory : List ℕ) (m : RedundancyMux) (c : RedundancyChannel) (p : RastaPacket)
    (w : MuxWorld) (id j : ℕ) (d : RedundancyChannel) (ip : List ℕ) (port : ℕ)
    → IsSendable h m c p
    → w.mux.config.crc_width ≡ m.config.crc_width
    → Expects w id p.sender_id c.seq_tx j d
    → (w' : MuxWorld) × (w'' : MuxWorld) × (receive_packet h w id
          (bytes_to_send (with_memory h memory) false m c p).0
          ip
          port
        ≡ returns (w', []))
      × (redundancy_mux_retrieve h w' p.sender_id ≡ returns (summed p (sum_of h.host p), w''))
unfolding create_redundancy_packet
sent_then_retrieved h memory m c p w id j d ip port s width x =
    let r = wrapped h memory m c p s in
    let (w', w'', failed, e, f) =
      received_then_retrieved h w id p.sender_id c.seq_tx j d x r refl refl refl ip port
        (sent h memory m c p s) (received_packet-sent h memory m c p s w width x.no_error) in
    (w', w'', e, f ∙ ap (λ y. returns (y, w'')) (queued_packet h p failed s.hashes s.packable))

-- A packet that one multiplexer sends to a partner with a channel, as many sockets as transport channels
-- and no error noted, and that the partner's multiplexer receives, from whatever address and on any of
-- its transport channels. The partner's channel for the sender expects the number that the sender's
-- channel is at, never deferred a packet, and has an empty receive queue with room for a message;
-- nothing is locked there and no error noted. Then the packet goes out as the same bytes on each
-- transport channel; the call for a datagram with these bytes returns; and what the partner's safety
-- layer then retrieves is the packet, with its check sum found correct. The two have the same codec,
-- and the packet fits its fields and a datagram of 1000 bytes.
pub retrieve-receive_packet-send :
    (h : MuxHost) (memory : List ℕ) (v : MuxWorld) (k : ℕ) (c : RedundancyChannel) (p : RastaPacket)
    (w : MuxWorld) (id j : ℕ) (d : RedundancyChannel) (ip : List ℕ) (port : ℕ)
    → redundancy_mux_get_channel v.mux p.receiver_id ≡ some k
    → get_elem? v.mux.connected_channels k ≡ some c
    → c.connected_channel_count ≤ length c.connected_channels
    → c.connected_channel_count ≤ length v.mux.udp_socket_fds
    → v.lasterror ≡ false
    → IsSendable h v.mux c p
    → w.mux.config.crc_width ≡ v.mux.config.crc_width
    → Expects w id p.sender_id c.seq_tx j d
    → (bytes : List ℕ) × (v' : MuxWorld) × (w' : MuxWorld) × (w'' : MuxWorld) × (redundancy_mux_send
          (with_memory h memory)
          v
          p
        ≡ returns (
          v',
          datagrams bytes v.mux.udp_socket_fds
              (take c.connected_channel_count c.connected_channels),
        ))
      × (receive_packet h w id bytes ip port ≡ returns (w', []))
      × (redundancy_mux_retrieve h w' p.sender_id ≡ returns (summed p (sum_of h.host p), w''))
retrieve-receive_packet-send h memory v k c p w id j d ip port known g ports sockets ok s width x =
    let sends = redundancy_mux_send_lem (with_memory h memory) v p k c known g ports sockets in
    let (w', w'', e, f) = sent_then_retrieved h memory v.mux c p w id j d ip port s width x in
    (
      (bytes_to_send (with_memory h memory) v.lasterror v.mux c p).0,
      _,
      w',
      w'',
      sends,
      subst
          (λ b.
            receive_packet h w id (bytes_to_send (with_memory h memory) b v.mux c p).0 ip port
            ≡ returns (w', []))
          (sym ok) e,
      f,
    )
