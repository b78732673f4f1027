-- ===== src/TextDevices/Agreement.antt =====
-- misc_char_dev.c and procfs.c seen by processes that call one after the other.
use kernel_modules_playgroun.Prelude.{
  ℕ, ◌≡◌, refl, ap, ◌∙◌, Option, none, some, List, [], ◌∷◌, ℤ, pos, negsuc, arith,
}
use kernel_modules_playgroun.RwLock.{free}
use kernel_modules_playgroun.TextDevices.Buffer.{Written}
use kernel_modules_playgroun.TextDevices.Device.{Device, terminate}
use kernel_modules_playgroun.TextDevices.Procfs
use kernel_modules_playgroun.TextDevices.MiscCharDev
use kernel_modules_playgroun.TextDevices.Words.{my_write-Procfs}
use kernel_modules_playgroun.TextDevices.Reading.{my_read-free}
use kernel_modules_playgroun.TextDevices.Files.{
  misc_fops, fops, Helpers, Node, Call, opens, reads, writes, closes, Reply, read_at, write_at,
  has_read, has_written, close_at, handle, run, ◌>>=◌,
}

-- Behind a call that returns, nobody holds the lock.
abbrev Unlocked : Option (Node × Reply) → Type 0
Unlocked none = Unit {0}
Unlocked (some r) = r.0.device.lock ≡ free

my_write-free :
    (w : Written) (d : Device)
    → d.lock ≡ free
    → MiscCharDev.my_write w d ≡ some (Procfs.my_write w d)
my_write-free w d e = my_write-Procfs w d ∙ simp e

my_write-lock : (w : Written) (d : Device) → (Procfs.my_write w d).0.lock ≡ d.lock
unfolding Procfs.my_write terminate
my_write-lock w d = lock-terminate w.ret (record d { kern_buff = w.buffer })
  where
    lock-terminate : (ret : ℤ) (e : Device) → (terminate ret e).lock ≡ e.lock
    lock-terminate (pos n) e = ground arith
    lock-terminate (negsuc n) e = refl

module _ (h : Helpers) where
  read_at-agrees :
      (fd len : ℕ) (off : Option ℕ) (node : Node)
      → node.device.lock ≡ free
      → (read_at misc_fops h fd len off node ≡ read_at fops h fd len off node)
        × Unlocked (read_at fops h fd len off node)
  read_at-agrees fd len none node e = (refl, e)
  read_at-agrees fd len (some off) node e = (
    ap (λ r. has_read fd r node) (my_read-free (h.simple_read_from_buffer len off) node.device e),
    e,
  )

  write_at-agrees :
      (fd : ℕ) (bytes : List ℕ) (off : Option ℕ) (node : Node)
      → node.device.lock ≡ free
      → (write_at misc_fops h fd bytes off node ≡ write_at fops h fd bytes off node)
        × Unlocked (write_at fops h fd bytes off node)
  write_at-agrees fd bytes none node e = (refl, e)
  write_at-agrees fd bytes (some off) node e =
      let w = h.simple_write_to_buffer node.device.kern_buff bytes off in
      (
        ap (λ r. has_written fd w.off r node) (my_write-free w node.device e),
        my_write-lock w node.device ∙ e,
      )

  close_at-lock :
      (fd : ℕ) (off : Option ℕ) (node : Node)
      → (close_at fd off node).0.device.lock ≡ node.device.lock
  close_at-lock fd none node = refl
  close_at-lock fd (some off) node = refl

  handle-agrees :
      (c : Call) (node : Node)
      → node.device.lock ≡ free
      → (handle misc_fops h c node ≡ handle fops h c node) × Unlocked (handle fops h c node)
  unfolding handle
  handle-agrees (opens fd) node e = (refl, e)
  handle-agrees (reads fd len) node e = read_at-agrees fd len (node.f_pos fd) node e
  handle-agrees (writes fd bytes) node e = write_at-agrees fd bytes (node.f_pos fd) node e
  handle-agrees (closes fd) node e = (refl, close_at-lock fd (node.f_pos fd) node ∙ e)

  both :
      (o : Option (Node × Reply)) (k k' : Node × Reply → Option (Node × List Reply))
      → Unlocked o
      → ((r : Node × Reply) → r.0.device.lock ≡ free → k r ≡ k' r)
      → (o >>= k) ≡ (o >>= k')
  both none k k' e same = refl
  both (some r) k k' e same = same r e

  -- For every sequence of opens, reads, writes and closes that starts while nobody holds the lock,
  -- and whatever the kernel's two helpers do, the device of misc_char_dev.c never waits and gives
  -- the replies of the file of procfs.c, and the same state.
  pub run-misc_fops :
      (cs : List Call) (node : Node)
      → node.device.lock ≡ free
      → run misc_fops h cs node ≡ run fops h cs node
  unfolding run
  run-misc_fops [] node e = refl
  run-misc_fops (c ∷ cs) node e =
      let (same, unlocked) = handle-agrees c node e in
      ap
        (λ o. o >>= λ first. run misc_fops h cs first.0 >>= λ rest. some (rest.0, first.1 ∷ rest.1))
        same
      ∙ both (handle fops h c node) _ _ unlocked
          λ r free. ap (λ o. o >>= λ rest. some (rest.0, r.1 ∷ rest.1)) (run-misc_fops cs r.0 free)
