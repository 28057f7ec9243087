-- ===== src/Label.antt =====
-- daemon/label.c: labels come encoded with C escapes, and are kept decoded, with every control
-- or punctuation byte as a backslash and three octal digits.
-- A plain `char` is signed, as on x86: a byte of 128 or more is a negative `int` and equals none
-- of the values that an escape stands for. The ctype functions are those of the C locale; called
-- on an octal escape above 255 their behaviour is undefined, and so is the outcome.
pub mod Ctype
pub mod Decode
pub mod Compare
pub mod Agreement
pub mod Acceptance
pub mod Bounds
pub mod Slashes
pub mod Ends
pub mod HighBytes
