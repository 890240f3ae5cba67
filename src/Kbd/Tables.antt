-- ===== src/Kbd/Tables.antt =====
-- kernel/src/kbd.c: the tables from scancodes to key codes, and from key codes to characters; and
-- of kernel/include/kernel/kbd.h the key codes that the driver names.
use pzos.Base.{ℕ, List, [], ◌∷◌}

-- Key codes of single scancodes; 0xff is no key.
unfoldable pub normal_map : List ℕ
normal_map =
    0xff ∷ 0xa9 ∷ 0xff ∷ 0xa5 ∷ 0xa3 ∷ 0xa1 ∷ 0xa2 ∷ 0xac ∷ 0xff ∷ 0xaa ∷ 0xa8 ∷ 0xa6 ∷ 0xa4 ∷ 0x60
    ∷ 0x80 ∷ 0xff ∷ 0xff ∷ 0x02 ∷ 0x20 ∷ 0xff ∷ 0x00 ∷ 0x61 ∷ 0x81 ∷ 0xff ∷ 0xff ∷ 0xff ∷ 0x21
    ∷ 0x42 ∷ 0x41 ∷ 0x62 ∷ 0x82 ∷ 0xff ∷ 0xff ∷ 0x23 ∷ 0x22 ∷ 0x43 ∷ 0x63 ∷ 0x84 ∷ 0x83 ∷ 0xff
    ∷ 0xff ∷ 0x03 ∷ 0x24 ∷ 0x44 ∷ 0x65 ∷ 0x64 ∷ 0x85 ∷ 0xff ∷ 0xff ∷ 0x26 ∷ 0x25 ∷ 0x46 ∷ 0x45
    ∷ 0x66 ∷ 0x86 ∷ 0xff ∷ 0xff ∷ 0xff ∷ 0x27 ∷ 0x47 ∷ 0x67 ∷ 0x87 ∷ 0x88 ∷ 0xff ∷ 0xff ∷ 0x28
    ∷ 0x48 ∷ 0x68 ∷ 0x69 ∷ 0x8a ∷ 0x89 ∷ 0xff ∷ 0xff ∷ 0x29 ∷ 0x2a ∷ 0x49 ∷ 0x4a ∷ 0x6a ∷ 0x8b
    ∷ 0xff ∷ 0xff ∷ 0xff ∷ 0x4b ∷ 0xff ∷ 0x6b ∷ 0x8c ∷ 0xff ∷ 0xff ∷ 0x40 ∷ 0x2b ∷ 0x4c ∷ 0x6c
    ∷ 0xff ∷ 0x6d ∷ 0xff ∷ 0xff ∷ 0xff ∷ 0xff ∷ 0xff ∷ 0xff ∷ 0xff ∷ 0xff ∷ 0x8d ∷ 0xff ∷ 0xff
    ∷ 0x31 ∷ 0xff ∷ 0x51 ∷ 0x71 ∷ 0xff ∷ 0xff ∷ 0xff ∷ 0x11 ∷ 0x13 ∷ 0x32 ∷ 0x52 ∷ 0x53 ∷ 0x72
    ∷ 0xa0 ∷ 0x91 ∷ 0xab ∷ 0x54 ∷ 0x33 ∷ 0x94 ∷ 0x93 ∷ 0x73 ∷ 0xaf ∷ 0xff ∷ 0xff ∷ 0xff ∷ 0xff
    ∷ 0xa7 ∷ []

-- Key codes of the scancodes behind 0xe0.
unfoldable pub extended_map : List ℕ
extended_map =
    0xff ∷ 0xff ∷ 0xff ∷ 0xff ∷ 0xff ∷ 0xff ∷ 0xff ∷ 0xff ∷ 0xff ∷ 0xff ∷ 0xff ∷ 0xff ∷ 0xff ∷ 0xff
    ∷ 0xff ∷ 0xff ∷ 0xe2 ∷ 0x04 ∷ 0xae ∷ 0xff ∷ 0x07 ∷ 0xc6 ∷ 0xff ∷ 0xff ∷ 0xe1 ∷ 0xff ∷ 0xff
    ∷ 0xff ∷ 0xff ∷ 0xff ∷ 0xff ∷ 0x01 ∷ 0xe7 ∷ 0xc2 ∷ 0xff ∷ 0xc4 ∷ 0xff ∷ 0xff ∷ 0xff ∷ 0x05
    ∷ 0xe5 ∷ 0xff ∷ 0xff ∷ 0xcc ∷ 0xff ∷ 0xff ∷ 0xff ∷ 0x06 ∷ 0xe6 ∷ 0xff ∷ 0xc3 ∷ 0xff ∷ 0xc7
    ∷ 0xff ∷ 0xff ∷ 0xee ∷ 0xe8 ∷ 0xff ∷ 0xca ∷ 0xc5 ∷ 0xff ∷ 0xff ∷ 0xff ∷ 0xef ∷ 0xe0 ∷ 0xff
    ∷ 0xff ∷ 0xff ∷ 0xff ∷ 0xff ∷ 0xff ∷ 0xff ∷ 0xc9 ∷ 0xff ∷ 0x92 ∷ 0xff ∷ 0xff ∷ 0xc8 ∷ 0xff
    ∷ 0xff ∷ 0xc1 ∷ 0xff ∷ 0xff ∷ 0xff ∷ 0xff ∷ 0xff ∷ 0xff ∷ 0xff ∷ 0xff ∷ 0xff ∷ 0x14 ∷ 0xff
    ∷ 0xff ∷ 0xff ∷ 0xf1 ∷ 0xff ∷ 0xff ∷ 0xff ∷ 0xff ∷ 0xff ∷ 0xff ∷ 0xff ∷ 0xff ∷ 0xff ∷ 0xff
    ∷ 0x6f ∷ 0xff ∷ 0x0e ∷ 0x8f ∷ 0xff ∷ 0xff ∷ 0xff ∷ 0x8e ∷ 0x6e ∷ 0x0f ∷ 0xff ∷ 0x10 ∷ 0x2f
    ∷ 0xff ∷ 0xb0 ∷ 0xff ∷ 0xff ∷ 0x70 ∷ 0xff ∷ 0xae ∷ 0x90 ∷ []

-- The character of a key, as its code in ASCII; 0 is none.
unfoldable pub codepoint_map : List ℕ
codepoint_map =
    0 ∷ 0 ∷ 0 ∷ 32 ∷ 0 ∷ 0 ∷ 0 ∷ 0 ∷ 0 ∷ 0 ∷ 0 ∷ 0 ∷ 0 ∷ 0 ∷ 0 ∷ 0 ∷ 0 ∷ 48 ∷ 0 ∷ 46 ∷ 10 ∷ 0 ∷ 0
    ∷ 0 ∷ 0 ∷ 0 ∷ 0 ∷ 0 ∷ 0 ∷ 0 ∷ 0 ∷ 0 ∷ 0 ∷ 122 ∷ 120 ∷ 99 ∷ 118 ∷ 98 ∷ 110 ∷ 109 ∷ 44 ∷ 46 ∷ 47
    ∷ 0 ∷ 0 ∷ 0 ∷ 0 ∷ 0 ∷ 0 ∷ 49 ∷ 50 ∷ 51 ∷ 0 ∷ 0 ∷ 0 ∷ 0 ∷ 0 ∷ 0 ∷ 0 ∷ 0 ∷ 0 ∷ 0 ∷ 0 ∷ 0 ∷ 0 ∷ 97
    ∷ 115 ∷ 100 ∷ 102 ∷ 103 ∷ 104 ∷ 106 ∷ 107 ∷ 108 ∷ 59 ∷ 39 ∷ 10 ∷ 0 ∷ 0 ∷ 0 ∷ 0 ∷ 52 ∷ 53 ∷ 54
    ∷ 43 ∷ 0 ∷ 0 ∷ 0 ∷ 0 ∷ 0 ∷ 0 ∷ 0 ∷ 0 ∷ 0 ∷ 0 ∷ 0 ∷ 9 ∷ 113 ∷ 119 ∷ 101 ∷ 114 ∷ 116 ∷ 121 ∷ 117
    ∷ 105 ∷ 111 ∷ 112 ∷ 91 ∷ 93 ∷ 92 ∷ 0 ∷ 0 ∷ 0 ∷ 55 ∷ 56 ∷ 57 ∷ 0 ∷ 0 ∷ 0 ∷ 0 ∷ 0 ∷ 0 ∷ 0 ∷ 0 ∷ 0
    ∷ 0 ∷ 0 ∷ 0 ∷ 96 ∷ 49 ∷ 50 ∷ 51 ∷ 52 ∷ 53 ∷ 54 ∷ 55 ∷ 56 ∷ 57 ∷ 48 ∷ 45 ∷ 61 ∷ 8 ∷ 0 ∷ 0 ∷ 0 ∷ 0
    ∷ 47 ∷ 42 ∷ 45 ∷ []

-- The character of a key with Shift held.
unfoldable pub shifted_map : List ℕ
shifted_map =
    0 ∷ 0 ∷ 0 ∷ 32 ∷ 0 ∷ 0 ∷ 0 ∷ 0 ∷ 0 ∷ 0 ∷ 0 ∷ 0 ∷ 0 ∷ 0 ∷ 0 ∷ 0 ∷ 0 ∷ 0 ∷ 0 ∷ 0 ∷ 10 ∷ 0 ∷ 0 ∷ 0
    ∷ 0 ∷ 0 ∷ 0 ∷ 0 ∷ 0 ∷ 0 ∷ 0 ∷ 0 ∷ 0 ∷ 90 ∷ 88 ∷ 67 ∷ 86 ∷ 66 ∷ 78 ∷ 77 ∷ 60 ∷ 62 ∷ 63 ∷ 0 ∷ 0
    ∷ 0 ∷ 0 ∷ 0 ∷ 0 ∷ 0 ∷ 0 ∷ 0 ∷ 0 ∷ 0 ∷ 0 ∷ 0 ∷ 0 ∷ 0 ∷ 0 ∷ 0 ∷ 0 ∷ 0 ∷ 0 ∷ 0 ∷ 0 ∷ 65 ∷ 83 ∷ 68
    ∷ 70 ∷ 71 ∷ 72 ∷ 74 ∷ 75 ∷ 76 ∷ 58 ∷ 34 ∷ 10 ∷ 0 ∷ 0 ∷ 0 ∷ 0 ∷ 0 ∷ 0 ∷ 0 ∷ 43 ∷ 0 ∷ 0 ∷ 0 ∷ 0
    ∷ 0 ∷ 0 ∷ 0 ∷ 0 ∷ 0 ∷ 0 ∷ 0 ∷ 9 ∷ 81 ∷ 87 ∷ 69 ∷ 82 ∷ 84 ∷ 89 ∷ 85 ∷ 73 ∷ 79 ∷ 80 ∷ 123 ∷ 125
    ∷ 124 ∷ 0 ∷ 0 ∷ 0 ∷ 0 ∷ 0 ∷ 0 ∷ 0 ∷ 0 ∷ 0 ∷ 0 ∷ 0 ∷ 0 ∷ 0 ∷ 0 ∷ 0 ∷ 0 ∷ 0 ∷ 0 ∷ 126 ∷ 33 ∷ 64
    ∷ 35 ∷ 36 ∷ 37 ∷ 94 ∷ 38 ∷ 42 ∷ 40 ∷ 41 ∷ 95 ∷ 43 ∷ 0 ∷ 0 ∷ 0 ∷ 0 ∷ 0 ∷ 47 ∷ 42 ∷ 45 ∷ []

abbrev pub key_lctrl : ℕ
key_lctrl = 0x00

abbrev pub key_lalt : ℕ
key_lalt = 0x02

abbrev pub key_ralt : ℕ
key_ralt = 0x04

abbrev pub key_rctrl : ℕ
key_rctrl = 0x07

abbrev pub key_num_period : ℕ
key_num_period = 0x12

abbrev pub key_num_enter : ℕ
key_num_enter = 0x13

abbrev pub key_lshift : ℕ
key_lshift = 0x20

abbrev pub key_rshift : ℕ
key_rshift = 0x2b

abbrev pub key_enter : ℕ
key_enter = 0x4c

abbrev pub key_invalid : ℕ
key_invalid = 0xff
