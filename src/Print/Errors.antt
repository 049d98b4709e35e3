-- ===== src/Print/Errors.antt =====
-- The names of the errors that kern/libs/printfmt.c prints, as lists of characters.
use mips.Base.{ℕ, List, [], ◌∷◌, Option, none, some}

-- `error_string`; `none` is the null pointer.
abbrev pub error_strings : List (Option (List ℕ))
error_strings =
    none
    ∷ some (
        117 ∷ 110 ∷ 115 ∷ 112 ∷ 101 ∷ 99 ∷ 105 ∷ 102 ∷ 105 ∷ 101 ∷ 100 ∷ 32 ∷ 101 ∷ 114 ∷ 114 ∷ 111
        ∷ 114 ∷ [])
    ∷  -- unspecified error
        some (98 ∷ 97 ∷ 100 ∷ 32 ∷ 112 ∷ 114 ∷ 111 ∷ 99 ∷ 101 ∷ 115 ∷ 115 ∷ [])
    ∷  -- bad process
        some (
        105 ∷ 110 ∷ 118 ∷ 97 ∷ 108 ∷ 105 ∷ 100 ∷ 32 ∷ 112 ∷ 97 ∷ 114 ∷ 97 ∷ 109 ∷ 101 ∷ 116 ∷ 101
        ∷ 114 ∷ [])
    ∷  -- invalid parameter
        some (111 ∷ 117 ∷ 116 ∷ 32 ∷ 111 ∷ 102 ∷ 32 ∷ 109 ∷ 101 ∷ 109 ∷ 111 ∷ 114 ∷ 121 ∷ [])
    ∷  -- out of memory
        some (
        111 ∷ 117 ∷ 116 ∷ 32 ∷ 111 ∷ 102 ∷ 32 ∷ 112 ∷ 114 ∷ 111 ∷ 99 ∷ 101 ∷ 115 ∷ 115 ∷ 101 ∷ 115
        ∷ [])
    ∷  -- out of processes
        some (
        115 ∷ 101 ∷ 103 ∷ 109 ∷ 101 ∷ 110 ∷ 116 ∷ 97 ∷ 116 ∷ 105 ∷ 111 ∷ 110 ∷ 32 ∷ 102 ∷ 97 ∷ 117
        ∷ 108 ∷ 116 ∷ [])
    ∷  -- segmentation fault
        none
    ∷ some (
        105 ∷ 110 ∷ 118 ∷ 97 ∷ 108 ∷ 105 ∷ 100 ∷ 32 ∷ 101 ∷ 108 ∷ 102 ∷ 32 ∷ 102 ∷ 105 ∷ 108 ∷ 101
        ∷ [])
    ∷  -- invalid elf file
        some (
        112 ∷ 114 ∷ 111 ∷ 99 ∷ 101 ∷ 115 ∷ 115 ∷ 32 ∷ 105 ∷ 115 ∷ 32 ∷ 107 ∷ 105 ∷ 108 ∷ 108 ∷ 101
        ∷ 100 ∷ [])
    ∷  -- process is killed
        some (112 ∷ 97 ∷ 110 ∷ 105 ∷ 99 ∷ 32 ∷ 102 ∷ 97 ∷ 105 ∷ 108 ∷ 117 ∷ 114 ∷ 101 ∷ [])
    ∷  -- panic failure
        none
    ∷ none
    ∷ some (110 ∷ 111 ∷ 32 ∷ 115 ∷ 117 ∷ 99 ∷ 104 ∷ 32 ∷ 100 ∷ 101 ∷ 118 ∷ 105 ∷ 99 ∷ 101 ∷ [])
    ∷  -- no such device
        some (
        100 ∷ 101 ∷ 118 ∷ 105 ∷ 99 ∷ 101 ∷ 32 ∷ 110 ∷ 111 ∷ 116 ∷ 32 ∷ 97 ∷ 118 ∷ 97 ∷ 105 ∷ 108
        ∷ 97 ∷ 98 ∷ 108 ∷ 101 ∷ [])
    ∷  -- device not available
        some (
        100 ∷ 101 ∷ 118 ∷ 105 ∷ 99 ∷ 101 ∷ 47 ∷ 102 ∷ 105 ∷ 108 ∷ 101 ∷ 32 ∷ 105 ∷ 115 ∷ 32 ∷ 98
        ∷ 117 ∷ 115 ∷ 121 ∷ [])
    ∷  -- device/file is busy
        some (
        110 ∷ 111 ∷ 32 ∷ 115 ∷ 117 ∷ 99 ∷ 104 ∷ 32 ∷ 102 ∷ 105 ∷ 108 ∷ 101 ∷ 32 ∷ 111 ∷ 114 ∷ 32
        ∷ 100 ∷ 105 ∷ 114 ∷ 101 ∷ 99 ∷ 116 ∷ 111 ∷ 114 ∷ 121 ∷ [])
    ∷  -- no such file or directory
        some (105 ∷ 115 ∷ 32 ∷ 97 ∷ 32 ∷ 100 ∷ 105 ∷ 114 ∷ 101 ∷ 99 ∷ 116 ∷ 111 ∷ 114 ∷ 121 ∷ [])
    ∷  -- is a directory
        some
        (110 ∷ 111 ∷ 116 ∷ 32 ∷ 97 ∷ 32 ∷ 100 ∷ 105 ∷ 114 ∷ 101 ∷ 99 ∷ 116 ∷ 111 ∷ 114 ∷ 121 ∷ [])
    ∷  -- not a directory
        some (
        99 ∷ 114 ∷ 111 ∷ 115 ∷ 115 ∷ 32 ∷ 100 ∷ 101 ∷ 118 ∷ 105 ∷ 99 ∷ 101 ∷ 32 ∷ 108 ∷ 105 ∷ 110
        ∷ 107 ∷ [])
    ∷  -- cross device link
        some (
        117 ∷ 110 ∷ 105 ∷ 109 ∷ 112 ∷ 108 ∷ 101 ∷ 109 ∷ 101 ∷ 110 ∷ 116 ∷ 101 ∷ 100 ∷ 32 ∷ 102 ∷ 101
        ∷ 97 ∷ 116 ∷ 117 ∷ 114 ∷ 101 ∷ [])
    ∷  -- unimplemented feature
        some (105 ∷ 108 ∷ 108 ∷ 101 ∷ 103 ∷ 97 ∷ 108 ∷ 32 ∷ 115 ∷ 101 ∷ 101 ∷ 107 ∷ [])
    ∷  -- illegal seek
        some (
        116 ∷ 111 ∷ 111 ∷ 32 ∷ 109 ∷ 97 ∷ 110 ∷ 121 ∷ 32 ∷ 102 ∷ 105 ∷ 108 ∷ 101 ∷ 115 ∷ 32 ∷ 97
        ∷ 114 ∷ 101 ∷ 32 ∷ 111 ∷ 112 ∷ 101 ∷ 110 ∷ [])
    ∷  -- too many files are open
        some (
        102 ∷ 105 ∷ 108 ∷ 101 ∷ 32 ∷ 111 ∷ 114 ∷ 32 ∷ 100 ∷ 105 ∷ 114 ∷ 101 ∷ 99 ∷ 116 ∷ 111 ∷ 114
        ∷ 121 ∷ 32 ∷ 97 ∷ 108 ∷ 114 ∷ 101 ∷ 97 ∷ 100 ∷ 121 ∷ 32 ∷ 101 ∷ 120 ∷ 105 ∷ 115 ∷ 116 ∷ 115
        ∷ [])
    ∷  -- file or directory already exists
        some (
        100 ∷ 105 ∷ 114 ∷ 101 ∷ 99 ∷ 116 ∷ 111 ∷ 114 ∷ 121 ∷ 32 ∷ 105 ∷ 115 ∷ 32 ∷ 110 ∷ 111 ∷ 116
        ∷ 32 ∷ 101 ∷ 109 ∷ 112 ∷ 116 ∷ 121 ∷ [])
    ∷  -- directory is not empty
        []
