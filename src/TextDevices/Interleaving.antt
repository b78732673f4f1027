-- ===== src/TextDevices/Interleaving.antt =====
-- Processes that read and write the device of misc_char_dev.c at the same time. A write
-- takes the lock, copies, and stores its text; its comparison, which stands behind the unlock, may
-- come any number of steps later, also while another process copies.
use kernel_modules_playgroun.Prelude.{
  ℕ, ◌<◌, ◌≡◌, refl, ap, ◌∙◌, some, List, [], ◌∷◌, length, arith, ℤ,
}
use kernel_modules_playgroun.Prelude.Bytes.{Text, c_string}
use kernel_modules_playgroun.RwLock.{RwLock, free, write_lock, write_unlock, read_lock, read_unlock}
use kernel_modules_playgroun.TextDevices.Buffer.{maxbuff, Written, Fetched, WriteOk}
use kernel_modules_playgroun.TextDevices.Device.{Device, terminate, verdict}
use kernel_modules_playgroun.TextDevices.MiscCharDev
use kernel_modules_playgroun.TextDevices.MiscCharDev.{store_locked}
use kernel_modules_playgroun.TextDevices.Words.{answer, stored_first}

-- Whether a write is under way: of which text, from which device on, and what its copying leaves.
pub data Progress : Type 0 where
  quiet : Progress
  copying : Device → Text → Written → Progress

-- First writes of the texts that have been stored, the latest first, and reads between them, lead
-- from `d` to another state. While a write is under way, the lock is taken and the buffer may hold
-- anything; behind it stands what `store_locked` makes of the device that it began with.
pub data Reaches (d : Device) : List Text → Progress → Device → Type 0 where
  start : Reaches d [] quiet d
  begun :
      {texts : List Text} {e : Device} {l : RwLock} (from : Text) (w : Written) (mixed : List ℕ)
      → Reaches d texts quiet e
      → WriteOk e.kern_buff from 0 w
      → length from < maxbuff
      → write_lock e.lock ≡ some l
      → Reaches d texts (copying e from w) (record e { kern_buff = mixed; lock = l })
  copied :
      {texts : List Text} {e f : Device} {from : Text} {w : Written} (mixed : List ℕ)
      → Reaches d texts (copying e from w) f
      → Reaches d texts (copying e from w) (record f { kern_buff = mixed })
  stored :
      {texts : List Text} {e f g : Device} {from : Text} {w : Written}
      → Reaches d texts (copying e from w) f
      → store_locked w e ≡ some g
      → Reaches d (from ∷ texts) quiet g
  fetched :
      {texts : List Text} {q : Progress} {e f : Device}
      (simple_read_from_buffer : Text → ℕ → Fetched) (r : Fetched)
      → Reaches d texts q e
      → MiscCharDev.my_read simple_read_from_buffer e ≡ some (f, r)
      → Reaches d texts q f

-- The text that a comparison sees: that of the last write, if there was one.
abbrev pub judged_text : Device → List Text → Text
judged_text d [] = c_string d.kern_buff
judged_text d (from ∷ texts) = c_string from

my_read_keeps :
    (g : Text → ℕ → Fetched) (d e : Device) (r : Fetched)
    → MiscCharDev.my_read g d ≡ some (e, r)
    → (e.kern_buff ≡ d.kern_buff) × (d.lock ≡ free → e.lock ≡ free)
unfolding MiscCharDev.my_read read_lock read_unlock
my_read_keeps g d e r done = ground arith

store_locked-free : (w : Written) (d e : Device) → store_locked w d ≡ some e → e.lock ≡ free
unfolding store_locked write_lock write_unlock terminate
store_locked-free w d e done = ground arith

verdict-kern_buff :
    (ret : ℤ) (d e : Device) → e.kern_buff ≡ d.kern_buff → verdict ret e ≡ verdict ret d
unfolding verdict
verdict-kern_buff ret d e same = rw same refl

abbrev Quiet : Device → List Text → Device → Type 0
Quiet d texts e =
    ((ret : ℤ) → verdict ret e ≡ answer ret (judged_text d texts))
    × (length e.kern_buff ≡ maxbuff)
    × (d.lock ≡ free → e.lock ≡ free)

-- While a write is under way, this holds of the device that it began with.
abbrev Holds : Device → List Text → Progress → Device → Type 0
Holds d texts quiet e = Quiet d texts e
Holds d texts (copying e from w) f =
    Quiet d texts e × WriteOk e.kern_buff from 0 w × (length from < maxbuff)

fetched-Holds :
    (d : Device) (texts : List Text) (q : Progress) (e f : Device)
    → (f.kern_buff ≡ e.kern_buff) × (e.lock ≡ free → f.lock ≡ free)
    → Holds d texts q e
    → Holds d texts q f
fetched-Holds d texts quiet e f (same, lock) (judged, size, unlocked) = (
  λ ret. verdict-kern_buff ret e f same ∙ judged ret,
  ap length same ∙ size,
  λ u. lock (unlocked u),
)
fetched-Holds d texts (copying b from w) e f kept h = h

Reaches-Holds :
    (d e : Device) (texts : List Text) (q : Progress)
    → length d.kern_buff ≡ maxbuff
    → Reaches d texts q e
    → Holds d texts q e
Reaches-Holds d e texts q size start = ((λ ret. unfold verdict in refl), size, λ unlocked. unlocked)
Reaches-Holds d f texts q size (begun {e} from w mixed r ok short locked) =
    (Reaches-Holds d e texts quiet size r, ok, short)
Reaches-Holds d f texts q size (copied {e} {f = f'} {from} {w} mixed r) =
    Reaches-Holds d f' texts (copying e from w) size r
Reaches-Holds d g texts q size (stored {texts = before} {e} {f} {from} {w} r done) =
    let ((_, size', _), ok, short) = Reaches-Holds d f before (copying e from w) size r in
    (
      (λ ret. (stored_first w e g from ret size' ok short done).0),
      (stored_first w e g from (ℤ.pos 0) size' ok short done).1,
      λ _. store_locked-free w e g done,
    )
Reaches-Holds d f texts q size (fetched {e} g reply r done) =
    fetched-Holds d texts q e f (my_read_keeps g e f reply done) (Reaches-Holds d e texts q size r)

-- Let any writes of less than 128 bytes at position 0, which `simple_write_to_buffer` copies, one at
-- a time under the lock, and any reads come in any order. A comparison at a moment when no write is
-- under way is made with the text of the write that was stored last, whoever made it; then the
-- buffer has its length, and if the lock was free at the start, it is free. Of a comparison while
-- another process copies, nothing is said.
pub verdict-last :
    (d e : Device) (texts : List Text)
    → length d.kern_buff ≡ maxbuff
    → Reaches d texts quiet e
    → ((ret : ℤ) → verdict ret e ≡ answer ret (judged_text d texts))
      × (length e.kern_buff ≡ maxbuff)
      × (d.lock ≡ free → e.lock ≡ free)
verdict-last d e texts size r = Reaches-Holds d e texts quiet size r

-- While a write is under way, the comparison of another process can be made with any text.
pub verdict-mixed :
    (d e f : Device) (texts : List Text) (from : Text) (w : Written) (mixed : List ℕ) (ret : ℤ)
    → Reaches d texts (copying e from w) f
    → (g : Device) × Reaches d texts (copying e from w) g
      × (verdict ret g ≡ answer ret (c_string mixed))
unfolding verdict
verdict-mixed d e f texts from w mixed ret r =
    (record f { kern_buff = mixed }, copied mixed r, refl)
