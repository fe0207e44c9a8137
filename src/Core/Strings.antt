-- ===== src/Core/Strings.antt =====
-- The class string of src/kernel/core/string.cc, over the heap of the operators new and delete. A
-- string is the pointer `_str`. The loops that look for the end of a text run on fuel.
pub mod Assign
pub mod Lifetime
pub mod Tests
use larva_os.Base.{
  ℕ, ◌+◌, ◌^◌, Bool, true, false, ◌==◌, if◌then◌else◌, u32, Option, none, some, ◌>>=◌, Ram, write,
  null,
}
use larva_os.Libc.Strings.{strlen, strcpy}
use larva_os.Memory.Heap.{Heap}
use larva_os.Core.Memory.{operator_new_array, operator_delete_array}
use larva_os.Video.{Screen, print}

-- string::string().
unfoldable pub empty_string : Ram → Heap → ℕ × Ram
unfolding operator_new_array
empty_string m heap = (let (str, m1) = operator_new_array m heap 1 in (str, write m1 str 0))

-- The three statements that copy the text at `val`.
unfoldable pub copy_text : ℕ → Ram → Heap → ℕ → Option (ℕ × Ram)
unfolding operator_new_array
copy_text fuel m heap val = strlen fuel m val 0 >>= λ (n : ℕ).
    let (str, m1) = operator_new_array m heap (u32 (n + 1)) in
    strcpy fuel m1 str val >>= λ (m2 : Ram).
    strlen fuel m2 val 0 >>= λ (n' : ℕ). some (str, write m2 (str + n') 0)

-- string::string(const char *).
unfoldable pub string_of_chars : ℕ → Ram → Heap → ℕ → Option (ℕ × Ram)
unfolding empty_string copy_text
string_of_chars fuel m heap val =
    if val == null then some (empty_string m heap) else copy_text fuel m heap val

-- string::string(string &&): the new pointer and that of the source.
unfoldable pub string_move : ℕ → ℕ × ℕ
string_move source = (source, null)

-- string::string(const string &).
unfoldable pub string_copy : ℕ → Ram → Heap → ℕ → Option (ℕ × Ram)
unfolding copy_text
string_copy fuel m heap source = copy_text fuel m heap source

-- string::~string(): delete[] of a null pointer does nothing.
unfoldable pub string_destroy : Ram → Heap → ℕ → Ram
unfolding operator_delete_array
string_destroy m heap str = if str == null then m else operator_delete_array m heap str

-- string::operator=(const char *).
unfoldable pub string_assign : ℕ → Ram → Heap → ℕ → ℕ → Option (ℕ × Ram)
unfolding operator_delete_array string_of_chars
string_assign fuel m heap str val =
    let m1 = if str == null then m else operator_delete_array m heap str in
    string_of_chars fuel m1 heap val

-- string::data() const.
unfoldable pub string_data : ℕ → ℕ
string_data str = str

-- operator<<(ostream &, const string &).
unfoldable pub string_print : ℕ → Ram → Screen → ℕ → Option Screen
string_print fuel m v str = print fuel m v str
