-- ===== src/TextDevices/Words.antt =====
-- Which writes misc_char_dev.c and procfs.c accept, and where they write.
use kernel_modules_playgroun.Prelude.{
  ℕ, ◌+◌, ◌<◌, ◌≤◌, ◌≡◌, refl, ◌∙◌, ap, ap₂, true, ltb, if◌then◌else◌, none, some, List, ◌∷◌, ◌++◌,
  length, length-append, take, drop, arith, ℤ, pos, negsuc, einval,
}
use kernel_modules_playgroun.Prelude.Bytes.{Text, text, same_text, c_string}
use kernel_modules_playgroun.TextDevices.Buffer.{maxbuff, Written, WriteOk, room}
use kernel_modules_playgroun.TextDevices.Prefixes.{
  c_string-set_at-take, take-take-append, length-drop, length-take, take-append_le, take-take,
  take-length, length-set_at,
}
use kernel_modules_playgroun.RwLock.{free, write_lock, write_unlock}
use kernel_modules_playgroun.TextDevices.Device.{Device, terminate, verdict}
use kernel_modules_playgroun.TextDevices.Procfs
use kernel_modules_playgroun.TextDevices.MiscCharDev
use kernel_modules_playgroun.TextDevices.MiscCharDev.{store_locked}

-- Whether a text is the word.
abbrev pub answer : ℤ → Text → ℤ
answer ret t = if same_text t (text "linux") then ret else einval

-- Storing and judging `n` bytes is judging the text before index `n`.
judged :
    (n : ℕ) (ret : ℤ) (d : Device)
    → n < maxbuff
    → length d.kern_buff ≡ maxbuff
    → verdict ret (terminate (pos n) d) ≡ answer ret (c_string (take n d.kern_buff))
unfolding verdict terminate
judged n ret d small size =
    let fits : ltb n maxbuff ≡ true = ground arith in
    simp (fits, c_string-set_at-take n d.kern_buff (omega arith))

-- `simple_write_to_buffer` keeps the length of the buffer.
WriteOk-length :
    (old from : List ℕ) (off : ℕ) (w : Written)
    → length old ≡ maxbuff
    → off ≤ maxbuff
    → WriteOk old from off w
    → length w.buffer ≡ maxbuff
WriteOk-length old from off w size le ok =
    let n = room (length from) off in
    let n-le : n ≤ length from = ground arith in
    let n-room : off + n ≤ maxbuff = ground arith in
    ap length ok.buffer
    ∙ length-append (take off old) (take n from ++ drop (off + n) old)
    ∙ omega (
      arith,
      length-append (take n from) (drop (off + n) old),
      length-take off old (omega arith),
      length-take n from n-le,
      length-drop (off + n) old,
    )

module _ (from : Text) (off : ℕ) (d : Device) (w : Written) (size : length d.kern_buff ≡ maxbuff)
    (within : off ≤ maxbuff) (ok : WriteOk d.kern_buff from off w) where
  stored_size : length w.buffer ≡ maxbuff
  stored_size = WriteOk-length d.kern_buff from off w size within ok

  first_judged :
      (ret : ℤ)
      → off ≡ 0
      → length from < maxbuff
      → (w.ret ≡ pos (length from))
        × (verdict ret (terminate w.ret (record d { kern_buff = w.buffer }))
            ≡ answer ret (c_string from))
  first_judged ret start short =
      let n = length from in
      let whole : room n off ≡ n = ground arith in
      let e : w.ret ≡ pos n = ok.ret ∙ ap pos whole in
      let front : w.buffer ≡ take n from ++ drop (off + n) d.kern_buff =
        ok.buffer
        ∙ ap₂ (λ o m. take o d.kern_buff ++ (take m from ++ drop (off + m) d.kern_buff)) start
            whole in
      rw e (
        refl,
        judged n ret (record d { kern_buff = w.buffer }) short stored_size
            ∙ ap (λ t. answer ret (c_string t))
                (ap (take n) front ∙ take-take-append n from _ (omega arith) ∙ take-length from),
      )

  -- A write of less than 128 bytes at position 0 that `simple_write_to_buffer` has copied is
  -- accepted, with its length, exactly if its text up to the first 0 is `linux`, and refused with
  -- -EINVAL if not.
  pub my_write-first :
      off ≡ 0
      → length from < maxbuff
      → (Procfs.my_write w d).1 ≡ answer (pos (length from)) (c_string from)
  unfolding Procfs.my_write
  my_write-first start short =
      let (e, judgement) = first_judged w.ret start short in
      judgement ∙ ap (λ r. answer r (c_string from)) e

  -- A write that `simple_write_to_buffer` has copied, of no more bytes than the file position has
  -- passed, is judged by the text that the buffer held before, whatever is written.
  pub my_write-later :
      room (length from) off ≤ off
      → (Procfs.my_write w d).1
        ≡ answer
            (pos (room (length from) off))
            (c_string (take (room (length from) off) d.kern_buff))
  unfolding Procfs.my_write
  my_write-later later =
      let n = room (length from) off in
      let small : n < maxbuff = ground arith in
      let inside : n ≤ length (take off d.kern_buff) =
        omega (arith, length-take off d.kern_buff (omega arith)) in
      rw ok.ret (
        judged n (pos n) (record d { kern_buff = w.buffer }) small stored_size
        ∙ ap (λ t. answer (pos n) (c_string t))
            (ap (take n) ok.buffer
              ∙ take-append_le n (take off d.kern_buff) _ inside
              ∙ take-take n off d.kern_buff later))

  -- A write of 128 bytes or more at position 0 that `simple_write_to_buffer` has copied puts its 0
  -- behind the buffer.
  pub my_write-stray :
      off ≡ 0 → maxbuff ≤ length from → (Procfs.my_write w d).0.strays ≡ pos maxbuff ∷ d.strays
  unfolding Procfs.my_write terminate
  my_write-stray start long =
      let full : room (length from) off ≡ maxbuff = ground arith in
      let e : w.ret ≡ pos maxbuff = ok.ret ∙ ap pos full in rw e refl

-- misc_char_dev.c writes as procfs.c does if nobody holds the lock, and gives the lock back; it
-- waits if somebody does.
pub my_write-Procfs :
    (w : Written) (d : Device)
    → MiscCharDev.my_write w d ≡ (elim d.lock [ free ↦ some (Procfs.my_write w d) | _ ↦ none ])
unfolding MiscCharDev.my_write Procfs.my_write store_locked write_lock write_unlock terminate
    verdict
my_write-Procfs w d = ground arith

stored_kern_buff :
    (w : Written) (d e : Device)
    → store_locked w d ≡ some e
    → e.kern_buff ≡ (terminate w.ret (record d { kern_buff = w.buffer })).kern_buff
unfolding store_locked write_lock write_unlock terminate
stored_kern_buff w d e stored = ground arith

length-terminate : (r : ℤ) (d : Device) → length (terminate r d).kern_buff ≡ length d.kern_buff
unfolding terminate
length-terminate (pos n) d = ground (arith, length-set_at d.kern_buff n 0)
length-terminate (negsuc n) d = refl

-- A first write that has been stored is judged by its own text.
pub stored_first :
    (w : Written) (d e : Device) (from : Text) (ret : ℤ)
    → length d.kern_buff ≡ maxbuff
    → WriteOk d.kern_buff from 0 w
    → length from < maxbuff
    → store_locked w d ≡ some e
    → (verdict ret e ≡ answer ret (c_string from)) × (length e.kern_buff ≡ maxbuff)
unfolding verdict
stored_first w d e from ret size ok short stored =
    let kept = stored_kern_buff w d e stored in
    (
      ap (λ b. answer ret (c_string b)) kept
          ∙ (first_judged from 0 d w size (omega arith) ok ret refl short).1,
      ap length kept
          ∙ length-terminate w.ret (record d { kern_buff = w.buffer })
          ∙ WriteOk-length d.kern_buff from 0 w size (omega arith) ok,
    )
