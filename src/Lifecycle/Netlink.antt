-- ===== src/Lifecycle/Netlink.antt =====
-- The callback of netlink_module.c.
use kernel_modules_playgroun.Prelude.{
  Bool, false, Bool-cases, ◌⊎◌, inl, inr, ℕ, ◌≡◌, ◌≢◌, refl, if◌then◌else◌, Option, none, some, [],
  ◌∷◌, ◌++◌, ◌||◌,
}
use kernel_modules_playgroun.Prelude.Bytes.{Text, text}
use kernel_modules_playgroun.Lifecycle.Resources.{
  message, Held, Load, pure, ◌>>=◌, ◌>>◌, Pointer, valid, null, error_pointer, is_null,
  acquire_pointer, release,
}

-- `netlink_broadcast(nl_sk, skb_out, portid, group, GFP_KERNEL)`: the payload of the buffer, which
-- it takes over, the port that is left out, and the number of the group. Its result is only logged.
pub record Broadcast : Type 0 where
  pub payload : Text
  pub portid : ℕ
  pub group : ℕ

-- `MULTICAST_GROUP`
abbrev pub multicast_group : ℕ
multicast_group = 0x21

-- `hello_nl_recv_msg` on a message whose header says `pid`, given whether there is memory for the
-- answer and whether the header fits into it; the result is what is broadcast.
unfoldable pub hello_nl_recv_msg : Pointer → Pointer → ℕ → Load (Option Broadcast)
hello_nl_recv_msg allocated header pid = do
  skb_out ← acquire_pointer message allocated
  if is_null skb_out then pure none else if is_null header then pure none else do
    release message
    pure (
        some (record { payload = text "Hello from kernel"; portid = pid; group = multicast_group }))

-- A socket of a process: its port, and whether it has joined a group.
pub record Socket : Type 0 where
  pub portid : ℕ
  pub joined : ℕ → Bool

-- What the kernel documents of a broadcast: only sockets in the group get it, and not the one with
-- the port.
pub record IsDelivery (delivered : Broadcast → Socket → Bool) : Type 0 where
  pub left_out : (b : Broadcast) (k : Socket) → k.portid ≡ b.portid → delivered b k ≡ false
  pub outside : (b : Broadcast) (k : Socket) → k.joined b.group ≡ false → delivered b k ≡ false

-- What a socket gets of what is broadcast.
abbrev pub receives : (Broadcast → Socket → Bool) → Option Broadcast → Socket → Option Text
receives delivered none k = none
receives delivered (some b) k = if delivered b k then some b.payload else none

-- The buffer that is lost.
abbrev pub lost : Pointer → Pointer → Held
lost valid null = message ∷ []
lost _ _ = []

-- What is broadcast if both calls succeed.
abbrev pub greeting : Pointer → Pointer → ℕ → Option Broadcast
greeting allocated header pid =
    if is_null allocated || is_null header
    then none
    else some (record { payload = text "Hello from kernel"; portid = pid; group = multicast_group })

greeting-left_out :
    (delivered : Broadcast → Socket → Bool) (allocated header : Pointer) (pid : ℕ) (k : Socket)
    → IsDelivery delivered
    → (k.portid ≡ pid) ⊎ (k.joined multicast_group ≡ false)
    → receives delivered (greeting allocated header pid) k ≡ none
greeting-left_out delivered a h pid k lawful out = elim (Bool-cases (is_null a || is_null h)) [
  | inl failed ↦ rw failed refl
  | inr sent ↦ rw sent (rw (nobody out) refl)
]
  where
    nobody :
        (k.portid ≡ pid) ⊎ (k.joined multicast_group ≡ false)
        → delivered
            (record { payload = text "Hello from kernel"; portid = pid; group = multicast_group })
            k
          ≡ false
    nobody (inl same) = lawful.left_out _ k same
    nobody (inr alone) = lawful.outside _ k alone

broadcast_lem :
    (a h : Pointer) (pid : ℕ) (held : Held)
    → a ≢ error_pointer
    → h ≢ error_pointer
    → hello_nl_recv_msg a h pid held ≡ some (greeting a h pid, lost a h ++ held)
unfolding hello_nl_recv_msg
broadcast_lem error_pointer h pid held p q = absurd (p refl)
broadcast_lem a error_pointer pid held p q = absurd (q refl)
broadcast_lem null null pid held p q = refl
broadcast_lem null valid pid held p q = refl
broadcast_lem valid null pid held p q = refl
broadcast_lem valid valid pid held p q = refl

-- Where the calls answer a valid pointer or NULL, the greeting, without a null character behind it,
-- is broadcast exactly if both succeed; then, and without memory, nothing is left over, but a buffer
-- into which the header does not fit is lost. Where the kernel delivers broadcasts as documented,
-- the socket that the message names as its sender never gets the greeting, in the group or not, and
-- no socket outside group 0x21 does.
pub hello_nl_recv_msg-lost :
    (delivered : Broadcast → Socket → Bool) (allocated header : Pointer) (pid : ℕ) (held : Held)
    (k : Socket)
    → IsDelivery delivered
    → allocated ≢ error_pointer
    → header ≢ error_pointer
    → (k.portid ≡ pid) ⊎ (k.joined multicast_group ≡ false)
    → (hello_nl_recv_msg allocated header pid held
        ≡ some (greeting allocated header pid, lost allocated header ++ held))
      × (receives delivered (greeting allocated header pid) k ≡ none)
hello_nl_recv_msg-lost delivered allocated header pid held k lawful p q out = (
  broadcast_lem allocated header pid held p q,
  greeting-left_out delivered allocated header pid k lawful out,
)
