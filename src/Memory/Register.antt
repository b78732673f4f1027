-- ===== src/Memory/Register.antt =====
-- /dev/memory as what it promises: one byte that all processes share.
use kernel_modules_playgroun.Prelude.{
  ℕ, zero, suc, ◌+◌, ◌-◌, ◌≡◌, refl, sym, ap, ◌∙◌, Bool, true, false, ◌==◌, if◌then◌else◌,
  Bool-cases, inl, inr, Option, none, some, List, [], ◌∷◌, arith, pos, fun_ext,
}
use kernel_modules_playgroun.Memory.Driver.{User, copied, memory_read, memory_write}
use kernel_modules_playgroun.Memory.Files.{
  memory_open, memory_release, memory_fops, put, call_read, call_write, call_close, Node, Call,
  opens, reads, writes, closes, Reply, returned, ebadf, handle, run,
}

-- Whether a file is closed, has its byte before it, or is at its end.
pub data Stage : Type 0 where
  closed fresh ended : Stage

pub record Register : Type 0 where
  pub byte : ℕ
  pub stage : ℕ → Stage

abbrev pub at : (ℕ → Stage) → ℕ → Stage → ℕ → Stage
at stage fd t g = if g == fd then t else stage g

abbrev pub offered : Bool → ℕ → Option ℕ
offered true c = some c
offered false c = none

-- A file gives the byte of the moment once, and then its end. Both times the byte is stored in the
-- memory of the process, if that is possible.
abbrev pub give : ℕ → Bool → Stage → Register → Register × Reply
give fd writable closed r = (r, returned ebadf)
give fd writable fresh r = (
  record r { stage = at r.stage fd ended },
  record { ret = pos 1; sent = offered writable r.byte },
)
give fd writable ended r = (r, record { ret = pos 0; sent = offered writable r.byte })

-- A write stores the byte before the end of what it is given, and says that it took one.
abbrev pub take_last : User → ℕ → Stage → Register → Register × Reply
take_last user behind closed r = (r, returned ebadf)
take_last user behind _ r = (record r { byte = copied (user (behind - 1)) }, returned (pos 1))

abbrev pub shut : ℕ → Stage → Register → Register × Reply
shut fd closed r = (r, returned ebadf)
shut fd _ r = (record r { stage = at r.stage fd closed }, returned (pos 0))

unfoldable pub serve : Call → Register → Register × Reply
serve (opens fd) r = (record r { stage = at r.stage fd fresh }, returned (pos 0))
serve (reads fd writable) r = give fd writable (r.stage fd) r
serve (writes fd user buf count) r = take_last user (buf + count) (r.stage fd) r
serve (closes fd) r = shut fd (r.stage fd) r

unfoldable pub replies : List Call → Register → List Reply
replies [] r = []
replies (c ∷ cs) r = let (r', reply) = serve c r in reply ∷ replies cs r'

-- What the driver's state is as a register.
abbrev pub stage_of : Option ℕ → Stage
stage_of none = closed
stage_of (some zero) = fresh
stage_of (some (suc n)) = ended

abbrev pub register : Node → Register
register node = record { byte = node.memory_buffer; stage = λ fd. stage_of (node.f_pos fd) }

-- The state after a call as a register, with the reply.
abbrev seen : Node × Reply → Register × Reply
seen (node, reply) = (register node, reply)

stage_of-put :
    (f_pos : ℕ → Option ℕ) (fd : ℕ) (p : Option ℕ)
    → ◌≡◌ {A = ℕ → Stage}
        (λ g. stage_of (put f_pos fd p g))
        (at (λ g. stage_of (f_pos g)) fd (stage_of p))
stage_of-put f_pos fd p =
    fun_ext λ g. elim (Bool-cases (g == fd)) [ inl same ↦ rw same refl | inr other ↦ rw other refl ]

put_self : (f_pos : ℕ → Option ℕ) (fd : ℕ) (p : Option ℕ) → f_pos fd ≡ p → put f_pos fd p ≡ f_pos
put_self f_pos fd p e = fun_ext λ g. elim (Bool-cases (g == fd)) [
  | inl same ↦ let here : g ≡ fd = ground (arith, same) in rw same (sym e ∙ ap f_pos (sym here))
  | inr other ↦ rw other refl
]

moved :
    (node : Node) (fd : ℕ) (p : Option ℕ) (reply : Reply)
    → seen (record node { f_pos = put node.f_pos fd p }, reply) ≡ (
      record {
        byte = node.memory_buffer;
        stage = at (λ g. stage_of (node.f_pos g)) fd (stage_of p);
      },
      reply,
    )
moved node fd p reply =
    ap (λ (s : ℕ → Stage). (record { byte = node.memory_buffer; stage = s }, reply))
      (stage_of-put node.f_pos fd p)

offered_lem : (writable : Bool) (c : ℕ) → (if writable then some c else none) ≡ offered writable c
offered_lem true c = refl
offered_lem false c = refl

call_read-give :
    (fd : ℕ) (writable : Bool) (p : Option ℕ) (node : Node)
    → node.f_pos fd ≡ p
    → seen (call_read (some memory_read) fd writable p node)
      ≡ give fd writable (stage_of p) (register node)
unfolding memory_read
call_read-give fd writable none node e = refl
call_read-give fd writable (some zero) node e =
    rw (offered_lem writable node.memory_buffer) (moved node fd (some 1) _)
call_read-give fd writable (some (suc n)) node e =
    let ahead : (suc n == 0) ≡ false = ground arith in
    let reply : Reply = record { ret = pos 0; sent = offered writable node.memory_buffer } in
    rw (ahead, offered_lem writable node.memory_buffer)
      (ap (λ f. seen (record node { f_pos = f }, reply)) (put_self node.f_pos fd (some (suc n)) e))

call_write-take_last :
    (user : User) (buf count : ℕ) (p : Option ℕ) (node : Node)
    → seen (call_write (some memory_write) user buf count p node)
      ≡ take_last user (buf + count) (stage_of p) (register node)
unfolding memory_write
call_write-take_last user buf count none node = refl
call_write-take_last user buf count (some zero) node = refl
call_write-take_last user buf count (some (suc n)) node = refl

call_close-shut :
    (fd : ℕ) (p : Option ℕ) (node : Node)
    → seen (call_close memory_fops fd p node) ≡ shut fd (stage_of p) (register node)
unfolding memory_release
call_close-shut fd none node = refl
call_close-shut fd (some zero) node = moved node fd none _
call_close-shut fd (some (suc n)) node = moved node fd none _

handle-serve : (c : Call) (node : Node) → seen (handle memory_fops c node) ≡ serve c (register node)
unfolding handle serve memory_open
handle-serve (opens fd) node = moved node fd (some 0) _
handle-serve (reads fd writable) node = call_read-give fd writable _ node refl
handle-serve (writes fd user buf count) node = call_write-take_last user buf count _ node
handle-serve (closes fd) node = call_close-shut fd _ node

-- For every sequence of opens, reads, writes and closes of any files, the replies of the driver are
-- those of one shared byte: a file gives the byte of the moment once, and then its end; a write
-- stores the byte before the end of what it is given, takes one byte, and moves no file.
pub run-replies :
    (cs : List Call) (node : Node) → run memory_fops cs node ≡ replies cs (register node)
unfolding run replies
run-replies [] node = refl
run-replies (c ∷ cs) node =
    ap (λ rs. (handle memory_fops c node).1 ∷ rs) (run-replies cs (handle memory_fops c node).0)
    ∙ ap (λ r. r.1 ∷ replies cs r.0) (handle-serve c node)
