-- ===== src/Tests/Devices.antt =====
-- src/gdt/gdt.c at a code segment, and src/print/print.c at a blank screen.
use conifer_os.Common.{ℕ, ◌≡◌, refl, arith, List, some}
use conifer_os.Gdt.{SegmentDescriptor, encode_segment_descriptor}
use conifer_os.Gdt.Decode.{Encodable, bytes, pages, decode, decode-encode_segment_descriptor}
use conifer_os.Terminal.{Terminal, terminal_write_char, terminal_put_char}
use conifer_os.Terminal.Backspace.{IsPlain, terminal_write_char-backspace}

-- All 4 GiB, as code of the kernel.
abbrev kernel_code : SegmentDescriptor
kernel_code = record { base = 0; limit = 0xffffffff; type = 0x9a }

decode-encode_segment_descriptor_example :
    (raw : List ℕ) × (encode_segment_descriptor kernel_code ≡ some raw)
    × (decode raw ≡ some kernel_code)
decode-encode_segment_descriptor_example =
    decode-encode_segment_descriptor kernel_code (omega arith) (pages (omega arith) refl)

abbrev odd_limit : SegmentDescriptor
odd_limit = record { base = 0; limit = 0x100000; type = 0x9a }

odd_not_Encodable : Encodable 0x100000 → ⊥
odd_not_Encodable (bytes h) = absurd (omega arith)
odd_not_Encodable (pages h e) = absurd (omega arith)

-- Row 2, column `col`.
abbrev screen : ℕ → Terminal
screen col = record { row = 2; col = col; cells = λ i. 0 }

letter-IsPlain : IsPlain 65
letter-IsPlain = record { no_newline = omega arith; no_backspace = omega arith }

terminal_write_char-backspace_example :
    terminal_write_char (terminal_write_char (screen 7) 65 15) 8 15
    ≡ terminal_put_char (screen 7) 2 7 32 15
terminal_write_char-backspace_example =
    terminal_write_char-backspace (screen 7) 65 15 letter-IsPlain (omega arith)
