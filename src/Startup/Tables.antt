-- ===== src/Startup/Tables.antt =====
-- The tables that kernel_main fills: descriptors, commands, file systems and interrupt handlers.
use conifer_os.Common.{
  ◌>>=◌, ℕ, zero, suc, ◌+◌, ◌^◌, ◌<◌, ◌≡◌, refl, ap, ◌∙◌, Option, none, some, List, [], ◌∷◌, arith,
  length, replicate, get_elem?, set, store-some, if◌then◌else◌, ok, Bool-cases, inl, inr,
}
use conifer_os.File.{
  find_slot, Files, Filesystem, fs_init, fs_insert_filesystem, fs_resolve, resolve_loop,
  max_open_files,
}
use conifer_os.Gdt.{SegmentDescriptor, segment_descriptor_to_raw}
use conifer_os.Gdt.Decode.{decode, decode-encode_segment_descriptor, Encodable, bytes, pages}
use conifer_os.Interrupts.{
  total_interrupts, max_isr80h_commands, isr80h_register_command, idt_register_interrupt_handler,
}
use conifer_os.Keyboard.Drivers.{
  KeyboardList, Devices, keyboard_init, keyboard_insert, ps2_keyboard_init, enable_ps2_first_port,
  keyboard_interrupt_no, link_last,
}
use conifer_os.SystemCalls.{isr80h_register_commands}
use conifer_os.Startup.{gdt, disk_search_and_init}

-- What the processor makes of the bytes of descriptors.
abbrev pub Decodes : List SegmentDescriptor → List (List ℕ) → Type 0
Decodes [] raws = raws ≡ []
Decodes (d ∷ ds) [] = ⊥
Decodes (d ∷ ds) (raw ∷ raws) = (decode raw ≡ some d) × Decodes ds raws

abbrev pub AllEncodable : List SegmentDescriptor → Type 0
AllEncodable [] = Unit
AllEncodable (d ∷ ds) = ((d.base < 2 ^ 32) × Encodable d.limit) × AllEncodable ds

pub segment_descriptor_to_raw-Decodes :
    (ds : List SegmentDescriptor)
    → AllEncodable ds
    → (raws : List (List ℕ)) × (segment_descriptor_to_raw ds ≡ some raws) × Decodes ds raws
unfolding segment_descriptor_to_raw
segment_descriptor_to_raw-Decodes [] h = ([], refl, refl)
segment_descriptor_to_raw-Decodes (d ∷ ds) ((base, limit), h) =
    let (raw, e, f) = decode-encode_segment_descriptor d base limit in
    let (raws, g, rest) = segment_descriptor_to_raw-Decodes ds h in
    (raw ∷ raws, rw (e, g) refl, (f, rest))

pub gdt-AllEncodable : (tss : ℕ) → tss < 2 ^ 32 → AllEncodable (gdt tss)
gdt-AllEncodable tss h =
    let all : Encodable 0xffffffff = pages (omega arith) refl in
    let low : 0 < 2 ^ 32 = omega arith in
    (
      (low, bytes (omega arith)),
      ((low, all), ((low, all), ((low, all), ((low, all), ((h, bytes (omega arith)), tt))))),
    )

module _ {Command : Type 0} (command : ℕ → Command) where
  -- The commands from the number `i` on, and the entries behind them.
  pub commands_from : ℕ → ℕ → List (Option Command)
  commands_from zero i = replicate 1016 none
  commands_from (suc n) i = some (command i) ∷ commands_from n (suc i)

  pub isr80h_register_commands-from :
      isr80h_register_commands (replicate max_isr80h_commands none) command
      ≡ some (commands_from 8 0)
  unfolding isr80h_register_commands isr80h_register_command commands_from
  isr80h_register_commands-from = refl

  get_elem?-commands_from :
      (n j i : ℕ) → i < n → get_elem? (commands_from n j) i ≡ some (some (command (j + i)))
  unfolding commands_from
  get_elem?-commands_from zero j i h = absurd (omega (arith, h))
  get_elem?-commands_from (suc n) j zero h =
      let e : j ≡ j + 0 = omega arith in ap (λ x. some (some (command x))) e
  get_elem?-commands_from (suc n) j (suc i) h =
      let e : suc j + i ≡ j + suc i = omega arith in
      get_elem?-commands_from n (suc j) i (omega (arith, h)) ∙ ap (λ x. some (some (command x))) e

  pub commands_at : (i : ℕ) → i < 8 → get_elem? (commands_from 8 0) i ≡ some (some (command i))
  commands_at i h =
      let e : 0 + i ≡ i = omega arith in
      get_elem?-commands_from 8 0 i h ∙ ap (λ x. some (some (command x))) e

-- The file system that the driver finds on the disk, with no file open.
pub record Mounted {World Priv : Type 0} (fat16 : Filesystem World Priv)
    (before after : Files World Priv) : Type 0 where
  pub closed : after.file_descriptors ≡ replicate max_open_files none
  pub found :
      after.disk_filesystem ≡ (if (fat16.resolve before.world 0).0 then some fat16 else none)
  pub mounted : (fs_init before (some fat16) >>= λ fs. some (disk_search_and_init fs)) ≡ some after

module _ {World Priv : Type 0} (fat16 : Filesystem World Priv) (s : Files World Priv) where
  pub mount :
      (files : Files World Priv) × (fs_init s (some fat16) ≡ some files)
      × Mounted fat16 s (disk_search_and_init files)
  unfolding fs_init fs_insert_filesystem disk_search_and_init fs_resolve resolve_loop find_slot
  mount = (
    _,
    refl,
    record {
      closed = refl;
      found = elim (Bool-cases (fat16.resolve s.world 0).0) [
        | inl e ↦ rw e refl
        | inr e ↦ rw e refl
      ];
      mounted = refl;
    },
  )

module _ {Handler : Type 0} (s : KeyboardList (Devices Handler)) (keyboard : ℕ) (handler : Handler)
    (handlers : List (Option Handler)) (ports : List (ℕ × ℕ)) where
  keyboard_insert-init :
      s.init keyboard ≡ some (ps2_keyboard_init handler)
      → keyboard_insert s keyboard
        ≡ (ok 0, record (link_last s keyboard) { world = (ps2_keyboard_init handler s.world).1 })
  unfolding keyboard_insert ps2_keyboard_init
  keyboard_insert-init e = rw (e, keyboard_insert) refl

  pub keyboard_init-world :
      s.init keyboard ≡ some (ps2_keyboard_init handler)
      → s.world ≡ some (handlers, ports)
      → length handlers ≡ total_interrupts
      → (keyboard_init s keyboard).world
        ≡ some (set handlers keyboard_interrupt_no (some handler), enable_ps2_first_port ports)
  unfolding keyboard_init ps2_keyboard_init idt_register_interrupt_handler
  keyboard_init-world e w size =
      let stored = store-some handlers keyboard_interrupt_no (some handler) (omega (arith, size)) in
      ap (λ r. r.1.world) (keyboard_insert-init e) ∙ rw (w, stored) refl
