-- ===== src/Config/Tests.antt =====
-- LoadFromYaml at a concrete document.
use cpp_linux_server_frame.Base.{
  ℕ, ◌≡◌, refl, Bool, List, [], ◌∷◌, Option, none, some, ◌==◌, if◌then◌else◌,
}
use cpp_linux_server_frame.Log.Loggers.{same_text}
use cpp_linux_server_frame.Config.{
  Node, scalar, entries, end, entry, list_all_member, ConfigVar, ConfigVarMap, load_from_yaml,
  load_members, is_name, load_member, from_string, text_of, set_value,
}
use cpp_linux_server_frame.Config.Laws.{texts_of, loaded, load_from_yaml-loaded}

-- The values are bytes, and a text without one does not convert.
abbrev same_byte : ℕ → ℕ → Bool
same_byte a b = a == b

abbrev first_byte : List ℕ → List ℕ → Option ℕ
first_byte n [] = none
first_byte n (c ∷ s) = some c

abbrev print_none : Node → List ℕ
print_none n = []

-- a: {b: "5"} and a.b: "6"
abbrev document : Node
document = entries (
    entry (b'a' ∷ []) (entries (entry (b'b' ∷ []) (scalar (b'5' ∷ [])) end))
      (entry (b'a' ∷ b'.' ∷ b'b' ∷ []) (scalar (b'6' ∷ [])) end))

abbrev name : List ℕ
name = b'a' ∷ b'.' ∷ b'b' ∷ []

abbrev port : ConfigVar ℕ
port = record { val = b'0'; cbs = 1 ∷ []; calls = [] }

abbrev datas : ConfigVarMap ℕ
datas key = if same_text name key then some port else none

loads_both :
    load_from_yaml same_byte first_byte print_none document datas name
    ≡ some (record { val = b'6'; cbs = 1 ∷ []; calls = (1, b'0', b'5') ∷ (1, b'5', b'6') ∷ [] })
unfolding load_from_yaml list_all_member load_members is_name load_member same_text from_string
    text_of set_value
loads_both = refl

load_from_yaml-loaded_example :
    load_from_yaml same_byte first_byte print_none document datas name
    ≡ loaded same_byte first_byte print_none name
        (texts_of same_byte first_byte print_none name document)
        (datas name)
load_from_yaml-loaded_example =
    load_from_yaml-loaded same_byte first_byte print_none document datas name
