-- ===== src/Lifecycle/Examples.antt =====
-- Concrete loads that fail on the way.
use kernel_modules_playgroun.Prelude.{
  Bool, true, false, not, ◌&&◌, ◌==◌, ==_refl, inl, negsuc, pos, ◌≡◌, none, some, refl, [], ◌∷◌,
  ◌++◌,
}
use kernel_modules_playgroun.Lifecycle.Resources.{
  debug_dir, page_buffer, misc_device, valid, null, error_pointer, ok, errno, Balanced,
}
use kernel_modules_playgroun.Lifecycle.Drivers.{
  vram_init, vram_exit, procexample_module_init, procexample_module_exit, my_sysfs_init,
  my_sysfs_exit, memory_init, memory_exit, example_init, example_exit, hello_init, hello_exit,
  task1_init, task1_exit, keybrd_int_register, keybrd_int_unregister, pen_init, pen_exit,
}
use kernel_modules_playgroun.Lifecycle.Balance.{unmapped, vram_init-Balanced}
use kernel_modules_playgroun.Prelude.Bytes.{text}
use kernel_modules_playgroun.Lifecycle.Debugfs.{
  jiffies_init, jiffies_exit, my_debugfs_init, module_cleanup,
}
use kernel_modules_playgroun.Lifecycle.Contracts.{inits-Balanced}
use kernel_modules_playgroun.Lifecycle.Pages.{high_low_init, high_low_init-gives_back}
use kernel_modules_playgroun.Lifecycle.Netlink.{
  Broadcast, Socket, IsDelivery, greeting, receives, lost, hello_nl_recv_msg,
  hello_nl_recv_msg-lost,
}

vram_init-Balanced_test :
    Balanced
      (unmapped valid)
      (vram_exit valid)
      (misc_device ∷ [])
      (vram_init valid ok valid error_pointer (errno 0) (misc_device ∷ []))
vram_init-Balanced_test =
    vram_init-Balanced valid ok error_pointer (errno 0) (misc_device ∷ []) (λ e. cc) refl refl

-- Every socket in the group but the one with the port gets a broadcast.
abbrev delivered : Broadcast → Socket → Bool
delivered b k = not (k.portid == b.portid) && k.joined b.group

delivered-IsDelivery : IsDelivery delivered
delivered-IsDelivery = record {
  left_out = λ b k same. rw (same, ==_refl b.portid) refl;
  outside = λ b k alone. rw alone (never (not (k.portid == b.portid)));
}
  where
    never : (x : Bool) → (x && false) ≡ false
    never true = refl
    never false = refl

-- The sender, in the group; another member gets the greeting.
abbrev sender : Socket
sender = record { portid = 812; joined = λ g. g == 0x21 }

hello_nl_recv_msg-lost_example :
    (hello_nl_recv_msg valid valid 812 (misc_device ∷ [])
      ≡ some (greeting valid valid 812, lost valid valid ++ misc_device ∷ []))
    × (receives delivered (greeting valid valid 812) sender ≡ none)
hello_nl_recv_msg-lost_example =
    hello_nl_recv_msg-lost delivered valid valid 812 (misc_device ∷ []) sender delivered-IsDelivery
      (λ e. cc) (λ e. cc) (inl refl)

member_test :
    receives delivered (greeting valid valid 812) (record sender { portid = 813 })
    ≡ some (text "Hello from kernel")
member_test = refl

jiffies_init_test :
    jiffies_init valid null (misc_device ∷ []) ≡ some (negsuc 0, debug_dir ∷ misc_device ∷ [])
unfolding jiffies_init
jiffies_init_test = refl

high_low_init-gives_back_test :
    high_low_init valid null valid valid (misc_device ∷ []) ≡ some (pos 0, misc_device ∷ [])
high_low_init-gives_back_test =
    high_low_init-gives_back valid null valid valid (misc_device ∷ []) (λ e. cc) (λ e. cc) refl

-- The directories and objects can be made, and what would be in them cannot.
inits-Balanced_example :
    let held = misc_device ∷ [] in
    Balanced [] procexample_module_exit held (procexample_module_init valid null held)
    × Balanced [] example_exit held (example_init valid (errno 11) held)
    × Balanced (page_buffer ∷ []) my_sysfs_exit held (my_sysfs_init valid null (errno 11) held)
    × Balanced [] (memory_exit valid) held (memory_init (errno 11) valid held)
    × Balanced [] hello_exit held (hello_init valid held)
    × Balanced [] task1_exit held (task1_init (errno 11) held)
    × Balanced [] keybrd_int_unregister held (keybrd_int_register (errno 11) held)
    × Balanced [] pen_exit held (pen_init (errno 11) held)
    × Balanced (debug_dir ∷ []) (module_cleanup valid) held (my_debugfs_init valid null valid held)
    × Balanced (debug_dir ∷ []) (jiffies_exit valid) held (jiffies_init valid null held)
inits-Balanced_example =
    inits-Balanced valid null valid (errno 11) (misc_device ∷ []) (λ e. cc) (λ e. cc) (λ e. cc) refl
