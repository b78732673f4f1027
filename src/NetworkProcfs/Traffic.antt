-- ===== src/NetworkProcfs/Traffic.antt =====
-- `hook_func` of network_procfs.c over a sequence of packets.
use kernel_modules_playgroun.Prelude.{
  ℕ, ◌+◌, ◌<◌, ◌≡◌, ◌≢◌, refl, ◌∙◌, ap₂, Bool-cases, inl, inr, none, some, List, [], ◌∷◌,
  if◌then◌else◌, length, take, length-take_le, arith, u32, sign_extend,
}
use kernel_modules_playgroun.Prelude.Bytes.{Text, same_text, same_text_iff}
use kernel_modules_playgroun.NetworkProcfs.Machine.{
  Ptr, null, Net, Cmd, Ends, Ends-bind, Block, SkBuff, Kernel, pure, ◌>>◌,
}
use kernel_modules_playgroun.NetworkProcfs.Driver.{hook_func, nf_accept, add_to_list_network}
use kernel_modules_playgroun.NetworkProcfs.Linked.{Chain, IsNet}
use kernel_modules_playgroun.NetworkProcfs.Adding.{account, Keeps, add_to_list_network-account}
use kernel_modules_playgroun.NetworkProcfs.Accounting.{
  view, tally, account_self, account-ne, length-account,
}

-- A packet, and the object that the slab cache would give for it.
abbrev pub Packet : Type 0
Packet = Block × SkBuff

abbrev pub Later : Ptr → List Packet → Type 0
Later a [] = Unit {0}
Later a ((b, _) ∷ ps) = (b.address ≢ a) × Later a ps

-- The objects are not null, not in use, and distinct.
abbrev pub Supplied : Net → List Packet → Type 0
Supplied s [] = Unit {0}
Supplied s ((b, _) ∷ ps) =
    (b.address ≢ null) × (s.cells b.address ≡ none) × Later b.address ps × Supplied s ps

pub Supplied-Later :
    (s s' : Net) (a : Ptr) (ps : List Packet)
    → ((c : Ptr) → c ≢ a → s.cells c ≡ none → s'.cells c ≡ none)
    → Later a ps
    → Supplied s ps
    → Supplied s' ps
Supplied-Later s s' a [] same later sup = tt
Supplied-Later s s' a ((b, _) ∷ ps) same later sup =
    (sup.0, same b.address later.0 sup.1, sup.2, Supplied-Later s s' a ps same later.1 sup.3)

module _ (kernel : Kernel) where
  -- The text of a packet's source, as `hook_func` cuts it.
  abbrev pub source_of : SkBuff → Text
  source_of p = take 15 (kernel.pi4 (kernel.header_of p).saddr)

  abbrev pub size_of : SkBuff → ℕ
  size_of p = u32 p.data_len

  -- The packets from a source, and their sizes added up, each as a sign-extended `int`.
  abbrev pub packets_from : Text → List Packet → ℕ
  packets_from t [] = 0
  packets_from t ((_, p) ∷ ps) =
      if same_text (source_of p) t then packets_from t ps + 1 else packets_from t ps

  abbrev pub bytes_from : Text → List Packet → ℕ
  bytes_from t [] = 0
  bytes_from t ((_, p) ∷ ps) =
      if same_text (source_of p) t
      then sign_extend (size_of p) + bytes_from t ps
      else bytes_from t ps

  -- The hook is called for one packet after the other.
  unfoldable pub traffic : ℕ → List Packet → Cmd (Unit {0})
  traffic fuel [] = pure tt
  traffic fuel ((b, p) ∷ ps) = do
    hook_func kernel.skb_network_header kernel.pi4 fuel b (some p)
    traffic fuel ps

  -- On a valid packet, a well-formed list with fuel for it, and an unused object of the slab
  -- allocator, the hook accepts the packet and accounts it to its source, and the list is
  -- well-formed again.
  pub hook_func-account :
      (fuel : ℕ) (b : Block) (p : SkBuff) (s : Net) (xs : Chain)
      → IsNet s xs
      → length xs < fuel
      → b.address ≢ null
      → s.cells b.address ≡ none
      → Ends
          (λ verdict s'.
            (verdict ≡ nf_accept)
            × Keeps s b.address (account b.address (source_of p) (size_of p) xs) s')
          (hook_func kernel.skb_network_header kernel.pi4 fuel b (some p) s)
  unfolding hook_func
  hook_func-account fuel b p s xs is enough fresh unused =
      let t = record s { sock_buff = some p; ip_header = some (kernel.header_of p) } in
      simp (kernel.reads p) (
        Ends-bind _ _ (add_to_list_network fuel b (source_of p) (size_of p) t) _
          (add_to_list_network-account fuel b (source_of p) (size_of p) t xs
            (record { list = is.list; unlocked = is.unlocked; cached = is.cached }) enough
            (omega (arith, length-take_le 15 (kernel.pi4 (kernel.header_of p).saddr))) fresh unused)
          λ _ s' k. (refl, k))

  -- The list `xs` tells of each source that it was seen `n` times and sent `bytes` bytes.
  abbrev pub Tells : (n bytes : Text → ℕ) → Chain → Type 0
  Tells n bytes xs = (t : Text) → t ≢ [] → view t xs ≡ tally t (n t) (bytes t)

  counted : (Text → ℕ) → SkBuff → Text → ℕ
  counted n p t = if same_text (source_of p) t then n t + 1 else n t

  summed : (Text → ℕ) → SkBuff → Text → ℕ
  summed bytes p t =
      if same_text (source_of p) t then bytes t + sign_extend (size_of p) else bytes t

  account-Tells :
      (n bytes : Text → ℕ) (a : Ptr) (p : SkBuff) (xs : Chain)
      → ((t : Text) → n t ≡ 0 → bytes t ≡ 0)
      → Tells n bytes xs
      → Tells (counted n p) (summed bytes p) (account a (source_of p) (size_of p) xs)
  unfolding counted summed
  account-Tells n bytes a p xs zeros seen t ne = elim (Bool-cases (same_text (source_of p) t)) [
    | inl same ↦
        let e = (same_text_iff (source_of p) t).0 same in
        rw (same, e)
          (account_self a t (size_of p) (n t) (bytes t) xs (omega arith) (zeros t) (seen t ne))
    | inr other ↦ rw other (
        account-ne a (source_of p) t (size_of p) xs
          (λ e. cc (other, (same_text_iff (source_of p) t).1 e))
        ∙ seen t ne)
  ]

  pub traffic-Tells :
      (fuel : ℕ) (ps : List Packet) (s : Net) (xs : Chain) (n bytes n' bytes' : Text → ℕ)
      → IsNet s xs
      → length xs + length ps < fuel
      → Supplied s ps
      → ((t : Text) → n t ≡ 0 → bytes t ≡ 0)
      → Tells n bytes xs
      → ((t : Text) → n' t ≡ n t + packets_from t ps)
      → ((t : Text) → bytes' t ≡ bytes t + bytes_from t ps)
      → Ends (λ _ s'. (ys : Chain) × IsNet s' ys × Tells n' bytes' ys) (traffic fuel ps s)
  unfolding traffic
  traffic-Tells fuel [] s xs n bytes n' bytes' is enough sup zeros seen count sum =
      (xs, is, λ t ne. seen t ne ∙ ap₂ (tally t) (omega (arith, count t)) (omega (arith, sum t)))
  traffic-Tells fuel ((b, p) ∷ ps) s xs n bytes n' bytes' is enough sup zeros seen count sum =
      Ends-bind _ _ (hook_func kernel.skb_network_header kernel.pi4 fuel b (some p) s) _
        (hook_func-account fuel b p s xs is (omega arith) sup.0 sup.1)
        λ _ s' k.
          traffic-Tells fuel ps s' (account b.address (source_of p) (size_of p) xs) (counted n p)
            (summed bytes p) n' bytes' k.1.0
            (omega (arith, length-account b.address (source_of p) (size_of p) xs))
            (Supplied-Later s s' b.address ps k.1.3 sup.2 sup.3)
            (λ t. unfold counted summed in ground (arith, zeros t))
            (account-Tells n bytes b.address p xs zeros seen)
            (λ t. unfold counted in ground (arith, count t))
            (λ t. unfold summed in ground (arith, sum t))
