-- ===== src/Examples/NodeStates.antt =====
-- A block of two equal transactions, executed on the state of an application with its trie.
use uniqys_kit.Prelude.{◌≡◌, refl, true, false, none, List, [], ◌∷◌, Result, ok, err}
use uniqys_kit.Types.ByteMap
use uniqys_kit.Types.ByteMap.{ByteMap}
use uniqys_kit.Types.FixedBytes.{Bytes}
use uniqys_kit.Signature.{Hash}
use uniqys_kit.Store.Interface.{Store}
use uniqys_kit.Store.InMemory.{in_memory}
use uniqys_kit.Store.Namespace.{namespace}
use uniqys_kit.Trie.Tree
use uniqys_kit.Trie.Tree.{MerklePatriciaTrie}
use uniqys_kit.Easy.Memcached.{read_only}
use uniqys_kit.Easy.Controller.{Application, execute_each}
use uniqys_kit.Easy.Controller.Trace.{Executes}
use uniqys_kit.Easy.Controller.Trace.Blocks.{execute_each-Executes}
use uniqys_kit.Easy.NodeState.{NodeState, node_state, app_prefix}
use uniqys_kit.Examples.Toy.{toy, hash_of}
use uniqys_kit.Examples.Controller.{sent, header, response}

abbrev memory : Store (ByteMap Bytes) Bytes
memory = in_memory (λ v. true)

abbrev ready_result : Result (MerklePatriciaTrie (ByteMap Bytes))
ready_result = Tree.with_root toy (namespace memory app_prefix) none []

abbrev unready : NodeState (ByteMap Bytes)
unready = record { top = record { store = []; root_hash = []; is_ready = false }; mode = read_only }

-- The state of an application with an empty trie.
abbrev ready_state : NodeState (ByteMap Bytes)
ready_state = elim ready_result [
  | ok top ↦ record { top = top; mode = read_only }
  | err e ↦ unready
]

-- An application that leaves the state.
abbrev idle : Application (NodeState (ByteMap Bytes))
idle = record {
  call = λ tx header h s. (s, ok response);
  call_event = λ tx header h s. (s, ok response);
}

abbrev block_result : Result (NodeState (ByteMap Bytes) × List Hash)
block_result =
    execute_each toy (node_state toy memory) idle none (sent ∷ sent ∷ []) header ready_state

abbrev after_block : NodeState (ByteMap Bytes)
after_block = elim block_result [ ok (s, hashes) ↦ s | err e ↦ unready ]

run_block : block_result ≡ ok (after_block, hash_of 95 ∷ [])
unfolding uniqys_kit.Trie.Tree.key_value_proof uniqys_kit.Trie.Tree.with_root
    uniqys_kit.Trie.Tree.ready uniqys_kit.Trie.Tree.check_ready uniqys_kit.Trie.Tree.get
    uniqys_kit.Trie.Tree.save_root uniqys_kit.Trie.Tree.save_tree uniqys_kit.Trie.Tree.set
    uniqys_kit.Trie.Tree.delete uniqys_kit.Trie.Tree.clear uniqys_kit.Trie.Tree.rollback
    uniqys_kit.Trie.Tree.prove uniqys_kit.Trie.Tree.verify_proof
    uniqys_kit.Trie.Hashing.content_serialize uniqys_kit.Trie.Hashing.content_deserialize
    uniqys_kit.Trie.Hashing.joined uniqys_kit.Trie.Hashing.optional_bytes
    uniqys_kit.Trie.Hashing.load_child uniqys_kit.Trie.Hashing.load_content
    uniqys_kit.Trie.Hashing.prove_here uniqys_kit.Trie.Hashing.prove_child
    uniqys_kit.Trie.Hashing.prove_below uniqys_kit.Trie.Hashing.prove_from
    uniqys_kit.Trie.Hashing.prove uniqys_kit.Trie.Hashing.each_child uniqys_kit.Trie.Hashing.hash
    uniqys_kit.Trie.Hashing.child_hash uniqys_kit.Trie.Hashing.save
    uniqys_kit.Trie.Hashing.save_child uniqys_kit.Trie.Node.empty_branch uniqys_kit.Trie.Node.update
    uniqys_kit.Trie.Node.descend uniqys_kit.Trie.Node.dereference uniqys_kit.Trie.Node.on_child
    uniqys_kit.Trie.Node.get_from uniqys_kit.Trie.Node.get uniqys_kit.Trie.Node.set_from
    uniqys_kit.Trie.Node.set uniqys_kit.Trie.Node.delete_from uniqys_kit.Trie.Node.delete
    uniqys_kit.Trie.Node.clear_at uniqys_kit.Trie.Node.clear_from uniqys_kit.Trie.Node.clear
    uniqys_kit.Trie.Store.child_serialize uniqys_kit.Trie.Store.children_serialize
    uniqys_kit.Trie.Store.node_serialize uniqys_kit.Trie.Store.children_deserialize
    uniqys_kit.Trie.Store.node_deserialize uniqys_kit.Trie.Store.node_key
    uniqys_kit.Trie.Store.get_node uniqys_kit.Trie.Store.set_node uniqys_kit.Trie.Store.root_in
    uniqys_kit.Trie.Store.get_root uniqys_kit.Trie.Store.set_root uniqys_kit.Trie.Keys.diff_index
    uniqys_kit.Trie.Keys.match uniqys_kit.Trie.Keys.key_to_buffer uniqys_kit.Trie.Keys.buffer_to_key
    uniqys_kit.Trie.Keys.strip uniqys_kit.Trie.Normal.present uniqys_kit.Trie.Normal.existing
    uniqys_kit.Trie.Normal.collect uniqys_kit.Trie.Normal.as_reference uniqys_kit.Trie.Normal.behind
    uniqys_kit.Trie.Normal.contract uniqys_kit.Trie.Normal.normalize
    uniqys_kit.Trie.Normal.normalize_child uniqys_kit.Serialize.Codec.serialize
    uniqys_kit.Serialize.Codec.deserialize uniqys_kit.Serialize.Buffer.copy
    uniqys_kit.Serialize.Buffer.new_writer uniqys_kit.Serialize.Buffer.contents
    uniqys_kit.Serialize.Buffer.grow uniqys_kit.Serialize.Buffer.resize
    uniqys_kit.Serialize.Buffer.append uniqys_kit.Serialize.Buffer.ensure
    uniqys_kit.Serialize.Buffer.write_through uniqys_kit.Serialize.Buffer.new_reader
    uniqys_kit.Serialize.Buffer.remaining uniqys_kit.Serialize.Buffer.consume
    uniqys_kit.Serialize.Integers.be_bytes uniqys_kit.Serialize.Integers.be_value
    uniqys_kit.Serialize.Integers.write_uint_be uniqys_kit.Serialize.Integers.read_uint_be
    uniqys_kit.Serialize.Integers.as_signed uniqys_kit.Serialize.Integers.write_int_be
    uniqys_kit.Serialize.Integers.read_int_be uniqys_kit.Serialize.UInt32.serialize
    uniqys_kit.Serialize.UInt32.deserialize uniqys_kit.Serialize.UInt8.serialize
    uniqys_kit.Serialize.UInt8.deserialize uniqys_kit.Serialize.UInt64.serialize
    uniqys_kit.Serialize.UInt64.deserialize uniqys_kit.Serialize.SizedBuffer.serialize
    uniqys_kit.Serialize.SizedBuffer.deserialize uniqys_kit.Serialize.Lists.write_items
    uniqys_kit.Serialize.Lists.serialize uniqys_kit.Serialize.Lists.read_items
    uniqys_kit.Serialize.Lists.deserialize uniqys_kit.Types.Optional.is_some
    uniqys_kit.Types.Optional.is_none uniqys_kit.Types.Optional.serialize
    uniqys_kit.Types.Optional.read_labelled uniqys_kit.Types.Optional.deserialize
    uniqys_kit.Types.FixedBytes.equals uniqys_kit.Types.FixedBytes.construct
    uniqys_kit.Types.FixedBytes.serialize uniqys_kit.Types.FixedBytes.deserialize
    uniqys_kit.Types.ByteMap.get uniqys_kit.Types.ByteMap.has uniqys_kit.Types.ByteMap.set
    uniqys_kit.Types.ByteMap.delete uniqys_kit.Types.ByteMap.values
    uniqys_kit.Store.Namespace.full_key uniqys_kit.Store.Namespace.clear_prefix
    uniqys_kit.Store.Namespace.namespace uniqys_kit.Store.InMemory.starts_with
    uniqys_kit.Store.InMemory.get uniqys_kit.Store.InMemory.clear_keys
    uniqys_kit.Store.InMemory.clear uniqys_kit.Store.InMemory.in_memory
    uniqys_kit.Easy.NodeState.account_of uniqys_kit.Easy.NodeState.get_account
    uniqys_kit.Easy.NodeState.set_account uniqys_kit.Easy.NodeState.rollback
    uniqys_kit.Easy.NodeState.node_state uniqys_kit.Easy.Account.serialize
    uniqys_kit.Easy.Account.deserialize uniqys_kit.Easy.Account.increment_nonce
    uniqys_kit.Easy.Account.set_balance uniqys_kit.Easy.Account.decrease_balance
    uniqys_kit.Easy.Account.increase_balance uniqys_kit.Signature.Keys.recovery
    uniqys_kit.Signature.Keys.construct uniqys_kit.Signature.Keys.signature_deserialize
    uniqys_kit.Signature.Keys.public_key_of uniqys_kit.Signature.Keys.from_data
    uniqys_kit.Signature.Keys.from_public_key uniqys_kit.Signature.Keys.sign
    uniqys_kit.Signature.Keys.recover uniqys_kit.Signature.Keys.address
    uniqys_kit.Signature.Keys.key_pair_public_key uniqys_kit.Signature.Keys.key_pair_address
    uniqys_kit.Easy.Controller.execute_each uniqys_kit.Easy.Controller.execute_one
    uniqys_kit.Easy.Controller.execute_normal uniqys_kit.Easy.Controller.settle
    uniqys_kit.Easy.Controller.try_normal uniqys_kit.Easy.Controller.try_account
    uniqys_kit.Easy.Controller.run_request uniqys_kit.Easy.Controller.keep_response
    uniqys_kit.Easy.Controller.stored_result uniqys_kit.Easy.Controller.check_status
    uniqys_kit.Easy.Controller.is_failure uniqys_kit.Easy.Transactions.signed_deserialize
    uniqys_kit.Easy.Transactions.construct uniqys_kit.Easy.Transactions.hash
    uniqys_kit.Easy.Transactions.serialize uniqys_kit.Easy.Transactions.deserialize
    uniqys_kit.Easy.Http.request_serialize uniqys_kit.Easy.Http.request_deserialize
    uniqys_kit.Easy.Http.headers_serialize uniqys_kit.Easy.Http.headers_deserialize
    uniqys_kit.Easy.Http.header_deserialize uniqys_kit.Blockchain.Transaction.hash
    uniqys_kit.Blockchain.Transaction.serialize uniqys_kit.Easy.Http.response_serialize
    uniqys_kit.Easy.Transactions.result_serialize uniqys_kit.Easy.Transactions.set_result
    uniqys_kit.Easy.Http.header_serialize uniqys_kit.Easy.Http.add_value
    uniqys_kit.Easy.Http.put_value uniqys_kit.Easy.Http.to_object_from
    uniqys_kit.Easy.Http.to_object uniqys_kit.Easy.Http.response_deserialize
run_block = refl

execute_each-Executes_example :
    Executes toy
      (node_state toy memory)
      idle
      header
      ready_state
      (sent ∷ sent ∷ [])
      (hash_of 95 ∷ [])
      after_block
execute_each-Executes_example =
    execute_each-Executes toy (node_state toy memory) idle none header (sent ∷ sent ∷ [])
      ready_state after_block (hash_of 95 ∷ []) run_block
