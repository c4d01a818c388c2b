-- ===== src/Scenarios/Packets.antt =====
-- Runs of what builds packets, orders them and sums them up.
use violet.Base.{◌≡◌, refl, true, false, not, ◌&&◌, some, [], ◌∷◌, arith, ◌==◌, if◌then◌else◌}
use violet.Util.Serial.{compare_u32}
use violet.Packet.Checks.{HeaderVerifies, PayloadVerifies4}
use violet.Tcp.Types.{established}
use violet.Tcp.Packet.{tcp_packet}
use violet.Tcp.Packet.Verify.{tcp_packet-verifies}
use violet.Tcp.Write.{flags}
use violet.Tcp.Queue.{is_less, queue_tcp}
use violet.Tcp.Queue.Map.{IsAscending, find, merged, queue_tcp-find}
use violet.Tcp.Windows.{Buffers}
use violet.Scenarios.{session}

-- Five bytes of data with an ACK.
tcp_packet-verifies_example :
    HeaderVerifies (
      tcp_packet
        (session established)
        (104 ∷ 101 ∷ 108 ∷ 108 ∷ 111 ∷ [])
        (flags false true false false))
    × PayloadVerifies4 (
        tcp_packet
          (session established)
          (104 ∷ 101 ∷ 108 ∷ 108 ∷ 111 ∷ [])
          (flags false true false false))
tcp_packet-verifies_example =
    tcp_packet-verifies (session established) (104 ∷ 101 ∷ 108 ∷ 108 ∷ 111 ∷ [])
      (flags false true false false) refl (omega arith)
      (record { size = refl; bytes = omega arith }) (record { size = refl; bytes = omega arith })
      (omega arith) (omega arith)

-- A longer copy of the second segment of the queue comes in.
queue_tcp-find_example :
    let cur = session established in
    let cur' = queue_tcp 2010 4 true (7 ∷ 8 ∷ 9 ∷ 9 ∷ []) cur in
    let fresh = not (is_less (compare_u32 2010 cur.remote_seq)) in
    (fresh ≡ false → cur' ≡ cur)
    × (cur' ≡ record cur { forward = cur'.forward })
    × IsAscending 2001 cur'.forward
    × (find 2010 cur'.forward ≡ (
        if fresh && 2010 == 2010
        then some (merged 2010 4 true (7 ∷ 8 ∷ 9 ∷ 9 ∷ []) (find 2010 cur.forward))
        else find 2010 cur.forward))
queue_tcp-find_example =
    queue_tcp-find 2001 2010 4 true (7 ∷ 8 ∷ 9 ∷ 9 ∷ []) (session established) 2010
      (record { word = omega arith; from_base = omega arith; within = omega arith })
      (
        record { word = omega arith; from_base = omega arith; within = omega arith },
        (omega arith, tt),
        (record { word = omega arith; from_base = omega arith; within = omega arith }, tt, tt),
      )

abbrev buffers : Buffers
buffers = record { sendbuf = 0; unsent = 100 }
