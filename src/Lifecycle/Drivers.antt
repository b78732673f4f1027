-- ===== src/Lifecycle/Drivers.antt =====
-- The init and exit functions of hardware_map.c, procfs.c, seq_file_procfs.c, kobjects.c,
-- sysfs_example.c, chardev_fops.c, netlink_module.c, misc_char_dev.c, keyboard_interrupt.c and
-- usb_basic.c. The arguments of an init
-- function are the kernel's answers to its calls, in their order.
use kernel_modules_playgroun.Prelude.{
  zero, Bool, true, false, if◌then◌else◌, ℤ, pos, negsuc, enomem,
}
use kernel_modules_playgroun.Lifecycle.Resources.{
  io_mapping, chrdev_region, device_class, char_device, proc_dir, proc_file, kobject, page_buffer,
  char_major, byte_buffer, socket, misc_device, irq_line, usb_driver, Load, pure, ◌>>=◌, ◌>>◌, Code,
  ok, errno, return_code, Pointer, is_null, acquire, acquire_pointer, release, release_if,
  device_create, device_destroy,
}

-- `cdev_add(...) == -1`
abbrev pub is_minus_one : Code → Bool
is_minus_one (errno zero) = true
is_minus_one _ = false

abbrev pub failed : Code → Bool
failed ok = false
failed (errno n) = true

unfoldable pub vram_init : Pointer → Code → Pointer → Pointer → Code → Load ℤ
vram_init mapped region class_answer device_answer added = do
  vram ← acquire_pointer io_mapping mapped
  if is_null vram then pure (negsuc 0) else do
    r ← acquire chrdev_region region
    if failed r then pure (negsuc 0) else do
      cl ← acquire_pointer device_class class_answer
      if is_null cl then (do release_if chrdev_region; pure (negsuc 0)) else do
        d ← device_create cl device_answer
        if is_null d
            then (do release_if device_class; release_if chrdev_region; pure (negsuc 0))
            else do
              c ← acquire char_device added
              if is_minus_one c
                  then (do
                    device_destroy cl
                    release_if device_class
                    release_if chrdev_region
                    pure (negsuc 0))
                  else pure (pos 0)

-- `cl` is what `class_create` answered.
unfoldable pub vram_exit : Pointer → Load (Unit {0})
vram_exit cl = do
  release_if char_device
  device_destroy cl
  release_if device_class
  release_if chrdev_region
  release io_mapping

-- `procexample_module_init` of procfs.c and of seq_file_procfs.c, which differ in the file's name
-- and operations.
unfoldable pub procexample_module_init : Pointer → Pointer → Load ℤ
procexample_module_init dir_answer file_answer = do
  example_dir ← acquire_pointer proc_dir dir_answer
  if is_null example_dir then pure enomem else do
    first_file ← acquire_pointer proc_file file_answer
    if is_null first_file then (do release proc_dir; pure enomem) else pure (pos 0)

unfoldable pub procexample_module_exit : Load (Unit {0})
procexample_module_exit = do release proc_file; release proc_dir

-- kobjects.c; the files of the group belong to the kobject.
unfoldable pub example_init : Pointer → Code → Load ℤ
example_init created group = do
  example_kobj ← acquire_pointer kobject created
  if is_null example_kobj
      then pure enomem
      else if failed group
      then (do release kobject; pure (return_code group))
      else pure (return_code group)

unfoldable pub example_exit : Load (Unit {0})
example_exit = release kobject

-- sysfs_example.c
unfoldable pub my_sysfs_init : Pointer → Pointer → Code → Load ℤ
my_sysfs_init allocated created group = do
  my_page_buffer ← acquire_pointer page_buffer allocated
  if is_null my_page_buffer then pure enomem else do
    my_sysfs_kobj ← acquire_pointer kobject created
    if is_null my_sysfs_kobj
        then pure enomem
        else if failed group
        then (do release kobject; pure (return_code group))
        else pure (return_code group)

unfoldable pub my_sysfs_exit : Load (Unit {0})
my_sysfs_exit = do release page_buffer; release kobject

-- chardev_fops.c, with the pointer `memory_buffer`.
unfoldable pub memory_exit : Pointer → Load (Unit {0})
memory_exit memory_buffer = do
  release_if char_major
  if is_null memory_buffer then pure tt else release byte_buffer

unfoldable pub memory_init : Code → Pointer → Load ℤ
memory_init registered allocated = do
  result ← acquire char_major registered
  if failed result then pure (return_code result) else do
    memory_buffer ← acquire_pointer byte_buffer allocated
    if is_null memory_buffer then (do memory_exit memory_buffer; pure enomem) else pure (pos 0)

-- netlink_module.c
unfoldable pub hello_init : Pointer → Load ℤ
hello_init created = do
  nl_sk ← acquire_pointer socket created
  if is_null nl_sk then pure (negsuc 9) else pure (pos 0)

unfoldable pub hello_exit : Load (Unit {0})
hello_exit = release socket

-- misc_char_dev.c
unfoldable pub task1_init : Code → Load ℤ
task1_init registered = do result ← acquire misc_device registered; pure (return_code result)

unfoldable pub task1_exit : Load (Unit {0})
task1_exit = release misc_device

-- keyboard_interrupt.c
unfoldable pub keybrd_int_register : Code → Load ℤ
keybrd_int_register requested = do result ← acquire irq_line requested; pure (return_code result)

unfoldable pub keybrd_int_unregister : Load (Unit {0})
keybrd_int_unregister = release irq_line

-- usb_basic.c
unfoldable pub pen_init : Code → Load ℤ
pen_init registered = do result ← acquire usb_driver registered; pure (return_code result)

unfoldable pub pen_exit : Load (Unit {0})
pen_exit = release usb_driver
