-- ===== src/Gen/Traces.antt =====
-- Types of src/gen.rs. What the execution of a transaction did.
use beerus.Prelude.{Option, List, Str}
use beerus.Gen.Classes.{EntryPointType}
use beerus.Gen.Events.{OrderedEvent, OrderedMessage}
use beerus.Gen.Fees.{ComputationResources, ExecutionResources, FeeEstimate}
use beerus.Gen.Felt.{Felt}
use beerus.Gen.Types.{FunctionCall}
use beerus.Gen.Updates.{StateDiff}

pub data CallType : Type 0 where
  library_call call delegate : CallType

-- The calls of a call hold calls of their own: `NestedCalls` is a `Vec<NestedCall>`.
mutual
  pub data FunctionInvocation : Type 0 where
    function_invocation :
        (function_call : FunctionCall)
        → (call_type : CallType) → (caller_address : Felt) → (calls : NestedCalls)
        → (class_hash : Felt) → (entry_point_type : EntryPointType) → (events : List OrderedEvent)
        → (execution_resources : ComputationResources) → (messages : List OrderedMessage)
        → (result : List Felt) → FunctionInvocation

  pub data NestedCall : Type 0 where
    nested_call : FunctionInvocation → NestedCall

  pub data NestedCalls : Type 0 where
    no_calls : NestedCalls
    one_more : NestedCall → NestedCalls → NestedCalls

pub data DeclareTxnTraceType : Type 0 where
  declare : DeclareTxnTraceType

pub record DeclareTxnTrace : Type 0 where
  pub execution_resources : ExecutionResources
  pub fee_transfer_invocation : Option FunctionInvocation
  pub type : DeclareTxnTraceType
  pub state_diff : Option StateDiff
  pub validate_invocation : Option FunctionInvocation

pub data DeployAccountTxnTraceType : Type 0 where
  deploy_account : DeployAccountTxnTraceType

pub record DeployAccountTxnTrace : Type 0 where
  pub constructor_invocation : FunctionInvocation
  pub execution_resources : ExecutionResources
  pub fee_transfer_invocation : Option FunctionInvocation
  pub type : DeployAccountTxnTraceType
  pub state_diff : Option StateDiff
  pub validate_invocation : Option FunctionInvocation

pub data InvokeTxnTraceExecuteInvocation : Type 0 where
  function_invocation : FunctionInvocation → InvokeTxnTraceExecuteInvocation
  revert_reason : Str → InvokeTxnTraceExecuteInvocation

pub data InvokeTxnTraceType : Type 0 where
  invoke : InvokeTxnTraceType

pub record InvokeTxnTrace : Type 0 where
  pub execute_invocation : InvokeTxnTraceExecuteInvocation
  pub execution_resources : ExecutionResources
  pub fee_transfer_invocation : Option FunctionInvocation
  pub type : InvokeTxnTraceType
  pub state_diff : Option StateDiff
  pub validate_invocation : Option FunctionInvocation

pub data L1HandlerTxnTraceType : Type 0 where
  l1_handler : L1HandlerTxnTraceType

pub record L1HandlerTxnTrace : Type 0 where
  pub execution_resources : ExecutionResources
  pub function_invocation : FunctionInvocation
  pub type : L1HandlerTxnTraceType
  pub state_diff : Option StateDiff

pub data TransactionTrace : Type 0 where
  invoke_txn_trace : InvokeTxnTrace → TransactionTrace
  declare_txn_trace : DeclareTxnTrace → TransactionTrace
  deploy_account_txn_trace : DeployAccountTxnTrace → TransactionTrace
  l1_handler_txn_trace : L1HandlerTxnTrace → TransactionTrace

pub record SimulatedTransaction : Type 0 where
  pub fee_estimation : Option FeeEstimate
  pub transaction_trace : Option TransactionTrace

pub record BlockTransactionTrace : Type 0 where
  pub trace_root : Option TransactionTrace
  pub transaction_hash : Option Felt
