-- ===== src/NTreeMerkle/Build.antt =====
-- Code/MerkleTreeNTree/src/NTreeMerkle.cpp: `build`. The events that go to the callback are left
-- out; `none` stands for the exception of nodes_.at, which no build raises.
use hybrid_blockchain_for_re.Prelude.{
  ℕ, zero, suc, ◌+◌, ◌-◌, Bool, true, false, Option, none, some, List, [], ◌∷◌, ◌++◌, Text, codes,
  length, get_elem?, take, drop, ◌>>=◌,
}
use hybrid_blockchain_for_re.Sha256.{Digest, sha256}
use hybrid_blockchain_for_re.NTreeMerkle.{join_hashes}
use hybrid_blockchain_for_re.NTreeMerkle.Generate.{Node, ParentLink, NTree, hashes_of}

pub record BuildResult : Type 0 where
  pub success : Bool
  pub error : Text
  pub root_hash : Text
  pub arity : ℕ
  pub leaf_count : ℕ
  pub node_count : ℕ
  pub height : ℕ

-- The nodes and links while a tree is built.
pub record Building : Type 0 where
  pub nodes : List Node
  pub links : List (ℕ × ParentLink)

-- group.back()
unfoldable pub back : List ℕ → ℕ
back [] = 0
back (x ∷ []) = x
back (x ∷ y ∷ xs) = back (y ∷ xs)

-- nodes_.push_back
abbrev pub push : Building → Node → Building
push b n = record b { nodes = b.nodes ++ n ∷ [] }

abbrev pub leaf_node : Digest → ℕ → ℕ → Text → Node
leaf_node d id index value = record {
  id = id;
  level = 0;
  index = index;
  leaf = true;
  padding = false;
  value = value;
  hash = sha256 d value;
  children = [];
  duplicate_of = none;
}

abbrev pub padding_node : ℕ → ℕ → ℕ → ℕ → Text → Node
padding_node id level index source hash = record {
  id = id;
  level = level;
  index = index;
  leaf = false;
  padding = true;
  value = [];
  hash = hash;
  children = [];
  duplicate_of = some source;
}

abbrev pub parent_node : Digest → ℕ → ℕ → ℕ → List ℕ → List Text → Node
parent_node d id level index group hashes = record {
  id = id;
  level = level;
  index = index;
  leaf = false;
  padding = false;
  value = [];
  hash = sha256 d (join_hashes hashes);
  children = group;
  duplicate_of = none;
}

-- The loop over the leaves, from `index` on: the tree with the leaves, and their ids.
unfoldable pub make_leaves : Digest → ℕ → List Text → Building → Building × List ℕ
make_leaves d index [] b = (b, [])
make_leaves d index (value ∷ leaves) b =
    let leaf = leaf_node d (length b.nodes) index value in
    let (b', ids) = make_leaves d (suc index) leaves (push b leaf) in (b', leaf.id ∷ ids)

-- The loop that completes a group by `missing` copies of its last child; `index` is that of the
-- first copy.
unfoldable pub pad_group : ℕ → ℕ → ℕ → List ℕ → Building → Option (Building × List ℕ)
pad_group zero level index group b = some (b, group)
pad_group (suc missing) level index group b = do
  source ← get_elem? b.nodes (back group)
  let padding = padding_node (length b.nodes) level index (back group) source.hash
  pad_group missing level (suc index) (group ++ padding.id ∷ []) (push b padding)

-- The loop that links the children of a group from the place `i` on; a later link of a child
-- replaces an earlier one.
unfoldable pub set_links : ℕ → ℕ → List ℕ → List (ℕ × ParentLink) → List (ℕ × ParentLink)
set_links parent i [] links = links
set_links parent i (child ∷ group) links =
    set_links parent (suc i) group ((child, record { parent_id = parent; child_index = i }) ∷ links)

-- The parent of a completed group.
unfoldable pub add_parent : Digest → ℕ → ℕ → List ℕ → Building → Option (Building × ℕ)
add_parent d level index group b = do
  hashes ← hashes_of b.nodes group
  let parent = parent_node d (length b.nodes) (suc level) index group hashes
  some (
    record { nodes = b.nodes ++ parent ∷ []; links = set_links parent.id 0 group b.links },
    parent.id,
  )

abbrev pub whole_tree : Building → List ℕ → ℕ → NTree
whole_tree b ids root = record {
  nodes = b.nodes;
  leaf_ids = ids;
  root_id = some root;
  parent_links = b.links;
}

module _ (d : Digest) (arity : ℕ) where
  -- The loop over the groups of a level. `width` is the length of the level, `padded` the number of
  -- copies so far, `index` that of the next parent. A group takes at least one child, so `fuel`
  -- need not exceed the width.
  unfoldable pub build_groups : ℕ → ℕ → ℕ → ℕ → ℕ → List ℕ → Building → Option (Building × List ℕ)
  build_groups fuel level width padded index [] b = some (b, [])
  build_groups zero level width padded index (x ∷ current) b = none
  build_groups (suc fuel) level width padded index (x ∷ current) b = do
    let group = take arity (x ∷ current)
    (b1, full) ← pad_group (arity - length group) level (width + padded) group b
    (b2, parent) ← add_parent d level index full b1
    (b3, next) ←
        build_groups fuel level width (padded + (arity - length group)) (suc index)
          (drop arity (x ∷ current)) b2
    some (b3, parent ∷ next)

  -- The loop over the levels, until one node is left: the tree and the id of the root.
  unfoldable pub build_levels : ℕ → ℕ → List ℕ → Building → Option (Building × ℕ)
  build_levels fuel level [] b = none
  build_levels fuel level (root ∷ []) b = some (b, root)
  build_levels zero level (x ∷ y ∷ current) b = none
  build_levels (suc fuel) level (x ∷ y ∷ current) b = do
    (b', next) ←
        build_groups (length (x ∷ y ∷ current)) level (length (x ∷ y ∷ current)) 0 0
          (x ∷ y ∷ current) b
    build_levels fuel (suc level) next b'

  abbrev pub empty_tree : NTree
  empty_tree = record { nodes = []; leaf_ids = []; root_id = none; parent_links = [] }

  abbrev pub failed : BuildResult
  failed = record {
    success = false;
    error = codes "At least one non-empty leaf is required.";
    root_hash = [];
    arity = arity;
    leaf_count = 0;
    node_count = 0;
    height = 0;
  }

  abbrev pub result_of : List ℕ → Building → Node → BuildResult
  result_of leaf_ids b top = record {
    success = true;
    error = [];
    root_hash = top.hash;
    arity = arity;
    leaf_count = length leaf_ids;
    node_count = length b.nodes;
    height = suc top.level;
  }

  abbrev pub finish : List ℕ → Building × ℕ → Option (NTree × BuildResult)
  finish leaf_ids (b, root) = do
    top ← get_elem? b.nodes root
    some (whole_tree b leaf_ids root, result_of leaf_ids b top)

  -- NTreeMerkle::build, on the leaves; the tree that was there before is dropped.
  unfoldable pub build : List Text → Option (NTree × BuildResult)
  build [] = some (empty_tree, failed)
  build (value ∷ leaves) =
      let (b, ids) = make_leaves d 0 (value ∷ leaves) (record { nodes = []; links = [] }) in
      build_levels (length ids) 0 ids b >>= finish ids
