-- ===== src/Ports/Polling.antt =====
-- What mouse_driver.c logs, and whether its loop ends.
use kernel_modules_playgroun.Prelude.{
  ℕ, zero, suc, ◌+◌, ◌%◌, Bool, true, false, Bool-cases, ltb, leb, ◌==◌, if◌then◌else◌, ◌≡◌, refl,
  ap, ◌∙◌, inl, inr, Option, none, some, List, [], ◌∷◌, arith,
}
use kernel_modules_playgroun.Ports.Mouse.{
  masked, signed_char, Packet, keyboard, log_packet, poll, mouse_init,
}

masked-32 : (x : ℕ) → (masked x 32 == 1) ≡ false
masked-32 x = ground arith

masked-1 : (x : ℕ) → masked x 1 ≡ x % 2
masked-1 x = omega arith

module _ (status : ℕ → ℕ) where
  -- How many of the `n` reads of the status from `s` on find data available.
  abbrev pub available : ℕ → Bool
  available s = status s % 2 == 1

  abbrev pub count : ℕ → ℕ → ℕ
  count zero s = 0
  count (suc n) s = let rest = count n (suc s) in if available s then suc rest else rest

module _ (data_at : ℕ → ℕ) where
  abbrev pub packet_at : ℕ → Packet
  packet_at d = record {
    device = keyboard;
    keys = signed_char (data_at d);
    x_mov = signed_char (data_at (d + 1));
    y_mov = signed_char (data_at (d + 2));
  }

  -- `k` packets of the keyboard, with three numbers each from read `d` on.
  abbrev pub packets : ℕ → ℕ → List Packet
  packets zero d = []
  packets (suc k) d = packet_at d ∷ packets k (d + 3)

module _ (status data_at : ℕ → ℕ) where
  abbrev pub if_enough : ℕ → ℕ → ℕ → Option (List Packet)
  if_enough k c d = if leb k c then some (packets data_at k d) else none

  poll-idle :
      (n s d l : ℕ)
      → ltb l 100 ≡ true
      → available status s ≡ false
      → poll status data_at (suc n) s d l ≡ poll status data_at n (suc s) d l
  unfolding poll
  poll-idle n s d l more idle = rw (more, masked-1 (status s), idle) refl

  poll-ready :
      (n s d l : ℕ)
      → ltb l 100 ≡ true
      → available status s ≡ true
      → poll status data_at (suc n) s d l
        ≡ log_packet (packet_at data_at d) (poll status data_at n (suc s) (d + 3) (l + 1))
  unfolding poll
  poll-ready n s d l more ready = rw (more, masked-1 (status s), ready, masked-32 (status s)) refl

  log_packet-if_enough :
      (k c d : ℕ)
      → log_packet (packet_at data_at d) (if_enough k c (d + 3)) ≡ if_enough (suc k) (suc c) d
  log_packet-if_enough k c d = elim (Bool-cases (leb k c)) [
    | inl enough ↦ let more : leb (suc k) (suc c) ≡ true = ground arith in rw (enough, more) refl
    | inr fewer ↦ let still : leb (suc k) (suc c) ≡ false = ground arith in rw (fewer, still) refl
  ]

  poll-if_enough :
      (n k s d l : ℕ)
      → l + k ≡ 100
      → poll status data_at (suc n) s d l ≡ if_enough k (count status n s) d
  unfolding poll
  poll-if_enough n zero s d l e =
      let done : ltb l 100 ≡ false = ground arith in
      let enough : leb 0 (count status n s) ≡ true = ground arith in rw (poll, done, enough) refl
  poll-if_enough zero (suc k) s d l e =
      let more : ltb l 100 ≡ true = ground arith in
      let none_yet : leb (suc k) 0 ≡ false = ground arith in
      rw none_yet (elim (Bool-cases (available status s)) [
        | inl ready ↦ poll-ready zero s d l more ready
        | inr idle ↦ poll-idle zero s d l more idle
      ])
  poll-if_enough (suc n) (suc k) s d l e =
      let more : ltb l 100 ≡ true = ground arith in
      elim (Bool-cases (available status s)) [
        | inl ready ↦
            poll-ready (suc n) s d l more ready
            ∙ ap (log_packet (packet_at data_at d))
                (poll-if_enough n k (suc s) (d + 3) (l + 1) (omega (arith, e)))
            ∙ log_packet-if_enough k (count status n (suc s)) d
            ∙ rw ready refl
        | inr idle ↦
            poll-idle (suc n) s d l more idle
            ∙ poll-if_enough n (suc k) (suc s) d l e
            ∙ rw idle refl
      ]

-- The init ends just if some number of reads of the status find data available 100 times; then it
-- has logged 100 packets of three numbers each, in the order of the reads, from -128 to 127 and
-- equal to what the port held modulo 256, all as the keyboard's, whatever the bit for the mouse
-- says. After one read fewer than the fuel that many must have come.
pub mouse_init-packets :
    (status data_at : ℕ → ℕ) (n : ℕ)
    → mouse_init status data_at (suc n)
      ≡ (if leb 100 (count status n 0) then some (packets data_at 100 0) else none)
unfolding mouse_init
mouse_init-packets status data_at n = poll-if_enough status data_at n 100 0 0 0 refl
