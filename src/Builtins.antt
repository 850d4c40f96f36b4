-- ===== src/Builtins.antt =====
-- The names of the builtin instance methods, crates/core/src/builtins/instance.rs and the files
-- below it.
use ubel_stratum.Common.{Bool, false, ◌||◌, List, [], ◌∷◌, String, string_eq, contains}

pub data ReceiverKind : Type 0 where
  list str dict tuple queue stack pool inline_list linqerizer : ReceiverKind

unfoldable pub method_names : ReceiverKind → List String
method_names list =
    "len" ∷ "push" ∷ "pop" ∷ "contains" ∷ "first" ∷ "last" ∷ "is_empty" ∷ "reverse" ∷ "get" ∷ "set"
    ∷ "find" ∷ "find_all" ∷ "query" ∷ []
method_names str =
    "len" ∷ "is_empty" ∷ "to_upper" ∷ "to_lower" ∷ "trim" ∷ "trim_start" ∷ "trim_end" ∷ "chars"
    ∷ "contains" ∷ "starts_with" ∷ "ends_with" ∷ "split" ∷ "replace" ∷ []
method_names dict = "len" ∷ "is_empty" ∷ "contains_key" ∷ "keys" ∷ "values" ∷ "set" ∷ "get" ∷ []
method_names tuple = "len" ∷ []
method_names queue = "len" ∷ "is_empty" ∷ "enqueue" ∷ "dequeue" ∷ "peek" ∷ "contains" ∷ "clear" ∷ []
method_names stack = "len" ∷ "is_empty" ∷ "push" ∷ "pop" ∷ "peek" ∷ "contains" ∷ "clear" ∷ []
method_names pool = "acquire" ∷ "release" ∷ "get" ∷ "growable" ∷ "fifo" ∷ []
method_names inline_list =
    "len" ∷ "push" ∷ "pop" ∷ "contains" ∷ "first" ∷ "last" ∷ "is_empty" ∷ "reverse" ∷ "capacity"
    ∷ []
method_names linqerizer =
    "where" ∷ "select" ∷ "order_by" ∷ "order_by_desc" ∷ "to_list" ∷ "first" ∷ "count" ∷ "group_by"
    ∷ []

abbrev receiver_kinds : List ReceiverKind
receiver_kinds = list ∷ str ∷ dict ∷ tuple ∷ queue ∷ stack ∷ pool ∷ inline_list ∷ linqerizer ∷ []

unfoldable pub any_names : String → List ReceiverKind → Bool
unfolding method_names contains
any_names name [] = false
any_names name (k ∷ ks) = contains (method_names k) name || any_names name ks

unfoldable pub is_builtin_instance_method_name : String → Bool
unfolding any_names
is_builtin_instance_method_name name = any_names name receiver_kinds
