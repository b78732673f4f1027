-- ===== src/Lifecycle/Balance.antt =====
-- The modules keep the contract `Balanced` of init and exit functions.
use kernel_modules_playgroun.Prelude.{zero, suc, false, ◌≡◌, ◌≢◌, refl, [], ◌∷◌}
use kernel_modules_playgroun.Lifecycle.Resources.{
  io_mapping, device_node, char_device, page_buffer, holds, without_absent, Held, Code, ok, errno,
  Pointer, valid, null, error_pointer, Balanced,
}
use kernel_modules_playgroun.Lifecycle.Drivers.{
  vram_init, vram_exit, procexample_module_init, procexample_module_exit, example_init,
  example_exit, my_sysfs_init, my_sysfs_exit, memory_init, memory_exit, hello_init, hello_exit,
  task1_init, task1_exit, keybrd_int_register, keybrd_int_unregister, pen_init, pen_exit,
}

-- What a failed init of hardware_map.c leaves behind: the mapping, if it was made.
abbrev pub unmapped : Pointer → Held
unmapped valid = io_mapping ∷ []
unmapped _ = []

-- With a class that is valid, a mapping that is valid or NULL, and no device or node of its own
-- held before, hardware_map.c gives back all it took once it is loaded, and leaves behind only the
-- mapping where it refuses to load; it does not crash, whatever the other calls answer.
pub vram_init-Balanced :
    (mapped : Pointer) (region : Code) (device_answer : Pointer) (added : Code) (held : Held)
    → mapped ≢ error_pointer
    → holds device_node held ≡ false
    → holds char_device held ≡ false
    → Balanced
        (unmapped mapped)
        (vram_exit valid)
        held
        (vram_init mapped region valid device_answer added held)
unfolding vram_init vram_exit
vram_init-Balanced null region d added held plain n c = refl
vram_init-Balanced error_pointer region d added held plain n c = absurd (plain refl)
vram_init-Balanced valid (errno e) d added held plain n c = refl
vram_init-Balanced valid ok null added held plain n c = refl
vram_init-Balanced valid ok valid ok held plain n c = refl
vram_init-Balanced valid ok valid (errno zero) held plain n c = refl
vram_init-Balanced valid ok valid (errno (suc e)) held plain n c =
    simp (without_absent char_device held c)
vram_init-Balanced valid ok error_pointer ok held plain n c =
    simp (without_absent device_node held n)
vram_init-Balanced valid ok error_pointer (errno zero) held plain n c =
    simp (without_absent device_node held n)
vram_init-Balanced valid ok error_pointer (errno (suc e)) held plain n c =
    simp (without_absent char_device held c, without_absent device_node held n)

-- Where the kernel answers a valid pointer or NULL, procfs.c and seq_file_procfs.c give back all
-- they took once they are loaded, and leave nothing behind where they refuse to load.
pub procexample_module_init-Balanced :
    (dir_answer file_answer : Pointer) (held : Held)
    → dir_answer ≢ error_pointer
    → file_answer ≢ error_pointer
    → Balanced [] procexample_module_exit held (procexample_module_init dir_answer file_answer held)
unfolding procexample_module_init procexample_module_exit
procexample_module_init-Balanced null f held p q = refl
procexample_module_init-Balanced error_pointer f held p q = absurd (p refl)
procexample_module_init-Balanced valid null held p q = refl
procexample_module_init-Balanced valid error_pointer held p q = absurd (q refl)
procexample_module_init-Balanced valid valid held p q = refl

-- kobjects.c gives back its kobject on exit and where its files cannot be made.
pub example_init-Balanced :
    (created : Pointer) (group : Code) (held : Held)
    → created ≢ error_pointer
    → Balanced [] example_exit held (example_init created group held)
unfolding example_init example_exit
example_init-Balanced null g held p = refl
example_init-Balanced error_pointer g held p = absurd (p refl)
example_init-Balanced valid ok held p = refl
example_init-Balanced valid (errno n) held p = refl

-- What a failed init of sysfs_example.c leaves behind: the page, if it was allocated.
abbrev pub unfreed : Pointer → Held
unfreed valid = page_buffer ∷ []
unfreed _ = []

-- Where the kernel answers a valid pointer or NULL, sysfs_example.c gives back all it took once it
-- is loaded, and where it refuses to load leaves behind the page if that was allocated.
pub my_sysfs_init-Balanced :
    (allocated created : Pointer) (group : Code) (held : Held)
    → allocated ≢ error_pointer
    → created ≢ error_pointer
    → Balanced (unfreed allocated) my_sysfs_exit held (my_sysfs_init allocated created group held)
unfolding my_sysfs_init my_sysfs_exit
my_sysfs_init-Balanced null k g held p q = refl
my_sysfs_init-Balanced error_pointer k g held p q = absurd (p refl)
my_sysfs_init-Balanced valid null g held p q = refl
my_sysfs_init-Balanced valid error_pointer g held p q = absurd (q refl)
my_sysfs_init-Balanced valid valid ok held p q = refl
my_sysfs_init-Balanced valid valid (errno n) held p q = refl

-- Where the kernel answers a valid pointer or NULL, chardev_fops.c gives back all it took once it
-- is loaded, and leaves nothing behind where it refuses to load: the failing init goes through the
-- exit function.
pub memory_init-Balanced :
    (registered : Code) (allocated : Pointer) (held : Held)
    → allocated ≢ error_pointer
    → Balanced [] (memory_exit allocated) held (memory_init registered allocated held)
unfolding memory_init memory_exit
memory_init-Balanced (errno n) a held p = refl
memory_init-Balanced ok null held p = refl
memory_init-Balanced ok valid held p = refl
memory_init-Balanced ok error_pointer held p = absurd (p refl)

-- misc_char_dev.c gives back its device.
pub task1_init-Balanced :
    (registered : Code) (held : Held) → Balanced [] task1_exit held (task1_init registered held)
unfolding task1_init task1_exit
task1_init-Balanced ok held = refl
task1_init-Balanced (errno n) held = refl

-- netlink_module.c gives back its socket.
pub hello_init-Balanced :
    (created : Pointer) (held : Held)
    → created ≢ error_pointer
    → Balanced [] hello_exit held (hello_init created held)
unfolding hello_init hello_exit
hello_init-Balanced null held p = refl
hello_init-Balanced error_pointer held p = absurd (p refl)
hello_init-Balanced valid held p = refl

-- keyboard_interrupt.c and usb_basic.c give back what they registered.
pub keybrd_int_register-Balanced :
    (requested : Code) (held : Held)
    → Balanced [] keybrd_int_unregister held (keybrd_int_register requested held)
unfolding keybrd_int_register keybrd_int_unregister
keybrd_int_register-Balanced ok held = refl
keybrd_int_register-Balanced (errno n) held = refl

pub pen_init-Balanced :
    (registered : Code) (held : Held) → Balanced [] pen_exit held (pen_init registered held)
unfolding pen_init pen_exit
pen_init-Balanced ok held = refl
pen_init-Balanced (errno n) held = refl
