-- ===== src/Lifecycle/Contracts.antt =====
-- The contract of init and exit functions, for all modules of Drivers and Debugfs but
-- hardware_map.c.
use kernel_modules_playgroun.Prelude.{false, ◌≡◌, ◌≢◌, []}
use kernel_modules_playgroun.Lifecycle.Resources.{
  debug_file, holds, Held, Code, Pointer, error_pointer, Balanced,
}
use kernel_modules_playgroun.Lifecycle.Drivers.{
  procexample_module_init, procexample_module_exit, example_init, example_exit, my_sysfs_init,
  my_sysfs_exit, memory_init, memory_exit, hello_init, hello_exit, task1_init, task1_exit,
  keybrd_int_register, keybrd_int_unregister, pen_init, pen_exit,
}
use kernel_modules_playgroun.Lifecycle.Debugfs.{
  directory, first_file, my_debugfs_init, module_cleanup, jiffies_init, jiffies_exit,
  my_debugfs_init-Balanced, jiffies_init-Balanced,
}
use kernel_modules_playgroun.Lifecycle.Balance.{
  unfreed, procexample_module_init-Balanced, example_init-Balanced, my_sysfs_init-Balanced,
  memory_init-Balanced, hello_init-Balanced, task1_init-Balanced, keybrd_int_register-Balanced,
  pen_init-Balanced,
}

-- If the kernel answers each call with a valid pointer or NULL, and with 0 or an error number, the
-- modules procfs.c and seq_file_procfs.c, kobjects.c, sysfs_example.c, chardev_fops.c,
-- netlink_module.c, misc_char_dev.c, keyboard_interrupt.c, usb_basic.c, debugfs_basic.c and
-- debugfs_jiffies.c give back on exit just what they took, and do not crash. If they refuse to
-- load, they leave nothing behind, but sysfs_example.c the page, debugfs_basic.c the directory and
-- the file that were made, and debugfs_jiffies.c its directory.
pub inits-Balanced :
    (p q r : Pointer) (c : Code) (held : Held)
    → p ≢ error_pointer
    → q ≢ error_pointer
    → r ≢ error_pointer
    → holds debug_file held ≡ false
    → Balanced [] procexample_module_exit held (procexample_module_init p q held)
      × Balanced [] example_exit held (example_init p c held)
      × Balanced (unfreed p) my_sysfs_exit held (my_sysfs_init p q c held)
      × Balanced [] (memory_exit p) held (memory_init c p held)
      × Balanced [] hello_exit held (hello_init p held)
      × Balanced [] task1_exit held (task1_init c held)
      × Balanced [] keybrd_int_unregister held (keybrd_int_register c held)
      × Balanced [] pen_exit held (pen_init c held)
      × Balanced (first_file p q) (module_cleanup p) held (my_debugfs_init p q r held)
      × Balanced (directory p) (jiffies_exit p) held (jiffies_init p q held)
inits-Balanced p q r c held a b d n = (
  procexample_module_init-Balanced p q held a b,
  example_init-Balanced p c held a,
  my_sysfs_init-Balanced p q c held a b,
  memory_init-Balanced c p held a,
  hello_init-Balanced p held a,
  task1_init-Balanced c held,
  keybrd_int_register-Balanced c held,
  pen_init-Balanced c held,
  my_debugfs_init-Balanced p q r held b d,
  jiffies_init-Balanced p q held b n,
)
