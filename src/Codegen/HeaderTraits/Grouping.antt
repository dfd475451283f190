-- ===== src/Codegen/HeaderTraits/Grouping.antt =====
-- codegen/headerTraits.ts: the groups of the map `srcTraits`.
use typespec_rust.Prelude.{
  Text, Bool, false, Option, none, some, List, [], ◌∷◌, ◌++◌, ◌||◌, ◌==◌, any, All, ◌≡◌,
  if◌then◌else◌,
}
use typespec_rust.Codemodel.Client.{ResponseHeadersTrait, MethodType, Client}
use typespec_rust.Codegen.HeaderTraits.{Groups, add_source, method_trait}

-- Some group has the name.
unfoldable pub named : Text → Groups → Bool
unfolding ◌==◌
named n [] = false
named n ((first, rest) ∷ groups) = first.name == n || named n groups

-- Each group is of one name, and no two groups are of the same.
abbrev pub Grouped : Groups → Type 0
Grouped [] = Unit
Grouped ((first, rest) ∷ groups) =
    All (λ t. t.name ≡ first.name) rest × (named first.name groups ≡ false) × Grouped groups

-- The traits of a list that have the name, in order.
unfoldable pub of_name : Text → List ResponseHeadersTrait → List ResponseHeadersTrait
unfolding ◌==◌
of_name n [] = []
of_name n (t ∷ ts) = if t.name == n then t ∷ of_name n ts else of_name n ts

-- The traits in the group of the name, in order.
unfoldable pub members : Text → Groups → List ResponseHeadersTrait
unfolding ◌==◌
members n [] = []
members n ((first, rest) ∷ groups) =
    if first.name == n then first ∷ rest ++ members n groups else members n groups

-- The trait that each group begins with.
abbrev pub heads : Groups → List ResponseHeadersTrait
heads [] = []
heads ((first, rest) ∷ groups) = first ∷ heads groups

-- A list of traits, and behind it the first trait of each name that it does not have.
unfoldable pub with_firsts :
    List ResponseHeadersTrait → List ResponseHeadersTrait → List ResponseHeadersTrait
unfolding ◌==◌ any
with_firsts seen [] = seen
with_firsts seen (t ∷ ts) =
    with_firsts (if any (λ s. s.name == t.name) seen then seen else seen ++ t ∷ []) ts

-- The traits of the methods of all clients, in order.
abbrev pub trait_list : Option ResponseHeadersTrait → List ResponseHeadersTrait
trait_list none = []
trait_list (some t) = t ∷ []

abbrev pub method_traits : List MethodType → List ResponseHeadersTrait
method_traits [] = []
method_traits (m ∷ ms) = trait_list (method_trait m) ++ method_traits ms

abbrev pub client_traits : List Client → List ResponseHeadersTrait
client_traits [] = []
client_traits (c ∷ cs) = method_traits c.methods ++ client_traits cs

-- The traits of a list are added one by one.
unfoldable add_all : List ResponseHeadersTrait → Groups → Groups
add_all [] groups = groups
add_all (t ∷ ts) groups = add_all ts (add_source t groups)
