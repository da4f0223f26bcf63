-- ===== src/Mad/Script.antt =====
-- A umad that follows a script: the datagrams that are to come, in their order.
use infiniband_diags.Base.{
  ℕ, ◌≤◌, ◌<◌, ◌≡◌, Option, none, some, List, [], ◌∷◌, length, arith, ◌==◌, leb, ◌%◌, if◌then◌else◌,
}
use infiniband_diags.Base.Int.{pos}
use infiniband_diags.Mad.Field.{Buf}
use infiniband_diags.Mad.Rpc.{Reply, Umad}
use infiniband_diags.Mad.Rpc.Receive.{IsFinite}

abbrev pub Script : Type 0
Script = List Reply

abbrev pub next : Script → Option Reply × Script
next [] = (none, [])
next (r ∷ rs) = (some r, rs)

abbrev pub scripted : Umad Script
scripted = record { send = λ agentid timeout retries pkt w. (pos 0, w); recv = λ timeout w. next w }

next_less : (w : Script) (r : Reply) → (next w).0 ≡ some r → length (next w).1 < length w
next_less [] r h = absurd (cc)
next_less (x ∷ xs) r h = omega arith

next_le : (w : Script) → length (next w).1 ≤ length w
next_le [] = omega arith
next_le (x ∷ xs) = omega arith

pub scripted-IsFinite : IsFinite scripted length
scripted-IsFinite = record {
  recv_less = λ timeout w r h. next_less w r h;
  recv_le = λ timeout w. next_le w;
  send_le = λ agentid timeout retries pkt w. omega arith;
}

-- Byte 15 is the last one of the transaction number; the data from byte 64 on are the offsets.
abbrev pub numbered : ℕ → Buf
numbered n a = if a == 15 then n else if leb 64 a then a % 256 else 0

abbrev pub reply : ℕ → ℕ → Reply
reply n status = record { mad = numbered n; length = 256; status = status }
