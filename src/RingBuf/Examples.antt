-- ===== src/RingBuf/Examples.antt =====
-- Concrete buffers and queues (runtime/src/ringbuf.rs).
use openab_pty.Base.{◌+◌, ◌-◌, ◌≤◌, ◌<◌, ◌≡◌, ◌↔◌, some, [], ◌∷◌, arith, length, drop, codes}
use mathlib.Core.List.{flatten}
use openab_pty.RingBuf.Scrollback.{new, write, clear, snapshot, read_since}
use openab_pty.RingBuf.Scrollback.History
use openab_pty.RingBuf.Scrollback.History.{new-Holds, write-Holds, write_counts, clear-Holds}
use openab_pty.RingBuf.Scrollback.Resume.{
  write_all, snapshot-write_all, read_since_lem, bytes_of, missed, to_offset, IsContiguous,
}
use openab_pty.RingBuf.Queue.{ByteQueue, QueueBounds, push, take_bytes, take_unreported_gap}
use openab_pty.RingBuf.Queue
use openab_pty.RingBuf.Queue.Stream
use openab_pty.RingBuf.Queue.Stream.{
  lost, push-Holds, take_bytes_lem, take_unreported_gap_lem, amount,
}

hello-Holds : History.Holds (codes "hello") (write (new 4) (codes "hello")).1
hello-Holds = write-Holds (codes "hello") (new-Holds 4 (omega arith)) (omega arith) (omega arith)

write_counts_example :
    length (write (write (new 4) (codes "hello")).1 (codes "!")).1.buf
      + (write (write (new 4) (codes "hello")).1 (codes "!")).0
    ≡ length (write (new 4) (codes "hello")).1.buf + 1
write_counts_example = write_counts (codes "!") hello-Holds (omega arith) (omega arith)

clear-Holds_example : History.Holds (codes "hello") (clear (write (new 4) (codes "hello")).1)
clear-Holds_example = clear-Holds hello-Holds

snapshot-write_all_example :
    snapshot length (write_all (new 4) (codes "hel" ∷ codes "lo" ∷ []))
    ≡ drop
        (length (flatten (codes "hel" ∷ codes "lo" ∷ [])) - 4)
        (flatten (codes "hel" ∷ codes "lo" ∷ []))
snapshot-write_all_example =
    snapshot-write_all length 4 (codes "hel" ∷ codes "lo" ∷ []) (omega arith)
      (omega arith, omega arith, (omega arith, omega arith, tt))

read_since_lem_example :
    (bytes_of (read_since length (write (new 4) (codes "hello")).1 2)
      ≡ drop (2 + missed (read_since length (write (new 4) (codes "hello")).1 2)) (codes "hello"))
    × (to_offset (read_since length (write (new 4) (codes "hello")).1 2) ≡ 5)
    × (IsContiguous (read_since length (write (new 4) (codes "hello")).1 2) ↔ (
        (0 < (write (new 4) (codes "hello")).1.capacity)
        × ((write (new 4) (codes "hello")).1.dropped ≤ 2)))
read_since_lem_example = read_since_lem length 2 hello-Holds (omega arith)

abbrev queue_four : ByteQueue
queue_four = Queue.new (record { capacity_bytes = 4; max_dropped_bytes = some 16 })

queue-Holds :
    Stream.Holds
      (codes "hello")
      (0 + lost queue_four (codes "hello"))
      0
      (push queue_four (codes "hello")).1
queue-Holds =
    push-Holds (codes "hello")
      (Stream.new-Holds (record { capacity_bytes = 4; max_dropped_bytes = some 16 }) (omega arith))
      (omega arith) (omega arith)
