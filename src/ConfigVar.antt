-- ===== src/ConfigVar.antt =====
-- encfs/ConfigVar.cpp and encfs/ConfigReader.cpp: a buffer that numbers and strings are written to and
-- read from, and the variables of an old configuration file. `none` is an `Error`.
pub mod Int
pub mod Text
pub mod Reader
pub mod Tests
use encfs.Base.{
  ℕ, zero, suc, ◌+◌, ◌-◌, ◌<◌, min, Bool, true, false, not, List, [], ◌∷◌, ◌++◌, length, take, drop,
  replicate, u32, bit_and, bit_or, ◌<<<◌, ◌>>>◌,
}
use encfs.Base.{Option, none, some, if◌then◌else◌, ltb, leb, ◌==◌}
use encfs.Cipher.Ssl.{r_assert, ◌>>=◌, ◌>>◌}

-- `ConfigVarData`
pub record ConfigVar : Type 0 where
  pub buffer : List ℕ
  pub offset : ℕ

-- `ConfigVar()` and `ConfigVar(buf)`
abbrev pub config_var : List ℕ → ConfigVar
config_var buf = record { buffer = buf; offset = 0 }

-- `resetOffset`
pub reset_offset : ConfigVar → ConfigVar
reset_offset v = record v { offset = 0 }

-- `read`: the bytes that are copied.
pub read : ConfigVar → ℕ → ConfigVar × List ℕ
read v bytes =
    let to_copy = min bytes (length v.buffer - v.offset) in
    (record v { offset = v.offset + to_copy }, take to_copy (drop v.offset v.buffer))

-- `write`
pub write : ConfigVar → List ℕ → ConfigVar
write v data' =
    if length v.buffer == v.offset
    then record { buffer = v.buffer ++ data'; offset = v.offset + length data' }
    else record {
      buffer = take v.offset v.buffer ++ (data' ++ drop v.offset v.buffer);
      offset = v.offset + length data';
    }

-- The digits of `writeInt`, for the 32 bits of the number.
pub digits : ℕ → List ℕ
digits val =
    bit_or 0x80 (bit_and val 0xf0000000 >>> 28)
    ∷ bit_or 0x80 (bit_and val 0x0fe00000 >>> 21)
    ∷ bit_or 0x80 (bit_and val 0x001fc000 >>> 14)
    ∷ bit_or 0x80 (bit_and val 0x00003f80 >>> 7)
    ∷ bit_and val 0x0000007f
    ∷ []

-- `while (digit[start] == 0x80) ++start;`
abbrev pub skip_zeros : List ℕ → List ℕ
skip_zeros [] = []
skip_zeros (digit ∷ rest) = if digit == 0x80 then skip_zeros rest else digit ∷ rest

-- `writeInt`
pub write_int : ConfigVar → ℕ → ConfigVar
write_int v val = write v (skip_zeros (digits val))

-- The loop of `readInt` over the bytes from the offset on: the value, in 32 bits, and the bytes taken.
pub read_digits : ℕ → ℕ → List ℕ → ℕ × ℕ
read_digits value count [] = (value, count)
read_digits value count (tmp ∷ buf) =
    let value' = bit_or (u32 (value <<< 7)) (bit_and tmp 0x7f) in
    let rest = read_digits value' (count + 1) buf in
    if not (bit_and tmp 0x80 == 0) then rest else (value', count + 1)

-- `readInt`: a value with the highest bit is negative.
pub read_int : ConfigVar → Option (ConfigVar × ℕ)
read_int v =
    let (value, count) = read_digits 0 0 (drop v.offset v.buffer) in
    do
      r_assert (ltb v.offset (length v.buffer))
      r_assert (ltb value 0x80000000)
      some (record v { offset = v.offset + count }, value)

-- `readInt(defaultValue)` and `readBool`
pub read_int_or : ConfigVar → ℕ → Option (ConfigVar × ℕ)
read_int_or v default_value =
    if leb (length v.buffer) v.offset then some (v, default_value) else read_int v

pub read_bool : ConfigVar → Bool → Option (ConfigVar × Bool)
read_bool v default_value = do
  (v', tmp) ← read_int_or v (if default_value then 1 else 0)
  some (v', not (tmp == 0))

-- `writeString`, which is `operator<<` for strings.
pub write_string : ConfigVar → List ℕ → ConfigVar
write_string v str = write (write_int v (length str)) str

-- `operator>>` for strings
pub read_string : ConfigVar → Option (ConfigVar × List ℕ)
read_string v = do
  (v1, size) ← read_int v
  let (v2, bytes) = read v1 size
  r_assert (length bytes == size)
  some (v2, bytes)

-- `ConfigReader::vars`, a name with the buffer of its variable.
abbrev pub Vars : Type 0
Vars = List (List ℕ × List ℕ)

-- `toVar`
abbrev pub write_entries : ConfigVar → Vars → ConfigVar
write_entries out [] = out
write_entries out ((key, value) ∷ vars) =
    write_entries (write (write_int (write (write_int out (length key)) key) (length value)) value)
      vars

pub to_var : Vars → ConfigVar
to_var vars = write_entries (write_int (config_var []) (length vars)) vars

-- `vars.insert`: a name that is there stays as it is.
abbrev pub same_name : List ℕ → List ℕ → Bool
same_name [] [] = true
same_name [] (y ∷ ys) = false
same_name (x ∷ xs) [] = false
same_name (x ∷ xs) (y ∷ ys) = if x == y then same_name xs ys else false

abbrev pub insert_var : List ℕ → List ℕ → Vars → Vars
insert_var key value [] = (key, value) ∷ []
insert_var key value ((k, v) ∷ vars) =
    if same_name k key then (k, v) ∷ vars else (k, v) ∷ insert_var key value vars

-- The loop of `loadFromVar`: an empty name ends it with false.
abbrev pub take_entry :
    (ConfigVar → Vars → Option (Vars × Bool))
    → Vars
    → ConfigVar
    → List ℕ
    → List ℕ
    → Option (Vars × Bool)
take_entry loop vars v [] value = some (vars, false)
take_entry loop vars v (x ∷ key) value = loop v (insert_var (x ∷ key) value vars)

pub load_entries : ℕ → ConfigVar → Vars → Option (Vars × Bool)
load_entries zero v vars = some (vars, true)
load_entries (suc entries) v vars = do
  (v1, key) ← read_string v
  (v2, value) ← read_string v1
  take_entry (load_entries entries) vars v2 key value

-- `loadFromVar`, into the variables that are there.
pub load_from_var : ConfigVar → Vars → Option (Vars × Bool)
load_from_var v vars = do (v1, entries) ← read_int (reset_offset v); load_entries entries v1 vars
