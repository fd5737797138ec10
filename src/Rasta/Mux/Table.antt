-- ===== src/Rasta/Mux/Table.antt =====
-- rasta_red_multiplexer.c: the table of the channels, and the datagrams of a sent packet.
use tfm_cloud_ixl_rasta.Prelude.{
  ℕ, zero, suc, ◌+◌, ◌%◌, ◌^◌, ◌≤◌, ◌≡◌, refl, sym, ◌∙◌, ap, ap₂, ◌==◌, not, ◌&&◌, ltb, Option,
  none, some, List, [], ◌∷◌, length, take, drop, drop-get_elem?, set, get_elem?, get_elem?-lt,
  length-set, if◌then◌else◌, if-elim, arith,
}
use tfm_cloud_ixl_rasta.Rasta.Packet.{RastaPacket}
use tfm_cloud_ixl_rasta.Rasta.Red.Outcome.{returns, or_fault, returns->>=}
use tfm_cloud_ixl_rasta.Rasta.Red.Sound.Queues.{some-injective}
use tfm_cloud_ixl_rasta.Rasta.Red.Channel.{TransportChannel, RedundancyChannel}
use tfm_cloud_ixl_rasta.Rasta.Mux.State.{
  RedundancyMux, MuxEvent, datagram, MuxHost, MuxWorld, channel_loop, redundancy_mux_get_channel,
}
use tfm_cloud_ixl_rasta.Rasta.Mux.Send.{
  send_loop, bytes_to_send, counted_up, send_to, redundancy_mux_send,
}
use tfm_cloud_ixl_rasta.Rasta.Mux.Receive.{is_saved, saved_in, save_at, discover}

-- A channel that keeps its identifier keeps the table.
pub channel_loop-set :
    (id i : ℕ) (cs : List RedundancyChannel) (j : ℕ) (x y : RedundancyChannel)
    → get_elem? cs j ≡ some x
    → y.associated_id ≡ x.associated_id
    → channel_loop id i (set cs j y) ≡ channel_loop id i cs
unfolding channel_loop
channel_loop-set id i [] j x y e same = cc
channel_loop-set id i (c ∷ cs) zero x y e same =
    let s : y.associated_id ≡ c.associated_id =
      same ∙ ap (λ (o : RedundancyChannel). o.associated_id) (sym (some-injective e)) in
    ap (λ n. if n == id then some i else channel_loop id (i + 1) cs) s
channel_loop-set id i (c ∷ cs) (suc j) x y e same =
    ap (λ o. if c.associated_id == id then some i else o)
      (channel_loop-set id (i + 1) cs j x y e same)

length-saved_in :
    (ts : List TransportChannel) (i : ℕ) (ip : List ℕ) (port : ℕ) (o : Option TransportChannel)
    → length (saved_in ts i ip port o) ≡ length ts
unfolding saved_in
length-saved_in ts i ip port none = refl
length-saved_in ts i ip port (some t) = length-set ts i (record t { ip_address = ip; port = port })

-- What is noted of the transport channels changes nothing else.
pub discover_lem :
    (port_count : ℕ) (ip : List ℕ) (port : ℕ) (c : RedundancyChannel)
    → (ts : List TransportChannel) × (n : ℕ) × (discover port_count ip port c
        ≡ record c { connected_channels = ts; connected_channel_count = n })
      × (length ts ≡ length c.connected_channels)
unfolding discover save_at
discover_lem port_count ip port c =
    if-elim
      (λ (x : RedundancyChannel).
        (ts : List TransportChannel) × (n : ℕ) × (x
          ≡ record c { connected_channels = ts; connected_channel_count = n })
        × (length ts ≡ length c.connected_channels))
      (ltb c.connected_channel_count port_count
        && not (is_saved ip port (take c.connected_channel_count c.connected_channels)))
      (λ _. (
        saved_in c.connected_channels c.connected_channel_count ip port
            (get_elem? c.connected_channels c.connected_channel_count),
        c.connected_channel_count + 1,
        refl,
        length-saved_in c.connected_channels c.connected_channel_count ip port
            (get_elem? c.connected_channels c.connected_channel_count),
      ))
      (λ _. (c.connected_channels, c.connected_channel_count, refl, refl))

-- One datagram with the bytes for each transport channel, to its address and port, on the sockets in
-- their order.
unfoldable pub datagrams : List ℕ → List ℕ → List TransportChannel → List MuxEvent
datagrams bytes fds [] = []
datagrams bytes [] (t ∷ ts) = []
datagrams bytes (fd ∷ fds) (t ∷ ts) = datagram fd bytes t.ip_address t.port ∷ datagrams bytes fds ts

send_loop-datagrams :
    (m : RedundancyMux) (c : RedundancyChannel) (bytes : List ℕ) (left i : ℕ)
    → i + left ≤ length c.connected_channels
    → i + left ≤ length m.udp_socket_fds
    → send_loop m c bytes left i
      ≡ returns
          (datagrams bytes (drop i m.udp_socket_fds) (take left (drop i c.connected_channels)))
unfolding send_loop datagrams
send_loop-datagrams m c bytes zero i h k = refl
send_loop-datagrams m c bytes (suc left) i h k =
    let (t, gt) = get_elem?-lt c.connected_channels i (omega arith) in
    let (fd, gf) = get_elem?-lt m.udp_socket_fds i (omega arith) in
    let rest = send_loop-datagrams m c bytes left (i + 1) (omega arith) (omega arith) in
    let next : suc i ≡ i + 1 = omega arith in
    let ts =
      drop-get_elem? c.connected_channels i t gt ∙ ap (λ n. t ∷ drop n c.connected_channels) next in
    let fds =
      drop-get_elem? m.udp_socket_fds i fd gf ∙ ap (λ n. fd ∷ drop n m.udp_socket_fds) next in
    returns->>= (or_fault (get_elem? c.connected_channels i)) _ (ap or_fault gt) (
      returns->>= (or_fault (get_elem? m.udp_socket_fds i)) _ (ap or_fault gf)
        (returns->>= (send_loop m c bytes left (i + 1)) _ rest refl))
    ∙ sym (
        ap₂
          (λ (x : List ℕ) (y : List TransportChannel).
            returns (datagrams bytes x (take (suc left) y)))
          fds ts)

-- A packet for a partner with a channel goes out once on each of its transport channels, as the same
-- bytes each time, on the socket with the index of the transport channel, where there are as many
-- sockets; then the number of the channel is counted up, and the other channels stay.
pub redundancy_mux_send_lem :
    (h : MuxHost) (w : MuxWorld) (p : RastaPacket) (i : ℕ) (c : RedundancyChannel)
    → redundancy_mux_get_channel w.mux p.receiver_id ≡ some i
    → get_elem? w.mux.connected_channels i ≡ some c
    → c.connected_channel_count ≤ length c.connected_channels
    → c.connected_channel_count ≤ length w.mux.udp_socket_fds
    → let (bytes, failed) = bytes_to_send h w.lasterror w.mux c p in
      let c' : RedundancyChannel = record c { seq_tx = (c.seq_tx + 1) % 2 ^ 64 } in
      redundancy_mux_send h w p
      ≡ returns (
        record w {
          lasterror = failed;
          mux = record w.mux { connected_channels = set w.mux.connected_channels i c' };
        },
        datagrams bytes w.mux.udp_socket_fds (take c.connected_channel_count c.connected_channels),
      )
unfolding redundancy_mux_send send_to counted_up
redundancy_mux_send_lem h w p i c known g ports sockets =
    let (bytes, failed) = bytes_to_send h w.lasterror w.mux c p in
    let e =
      send_loop-datagrams w.mux c bytes c.connected_channel_count 0 (omega arith) (omega arith) in
    ap (send_to h w p) known
    ∙ returns->>= (or_fault (get_elem? w.mux.connected_channels i)) _ (ap or_fault g)
        (returns->>= (send_loop w.mux c bytes c.connected_channel_count 0) _ e refl)
