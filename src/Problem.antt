-- ===== src/Problem.antt =====
-- core/types.h: the tensors, the operations and the problem, as far as the structural code reads
-- them. What only the cost models read is left out.
use pto_fusebox.Base.{ℕ, List, length, get_or}
use pto_fusebox.FlatSet.{FlatSet}

pub data DType : Type 0 where
  fp32 fp16 bf16 int32 int16 int8 bool : DType

pub dtype_bytes : DType → ℕ
dtype_bytes DType.fp32 = 4
dtype_bytes DType.int32 = 4
dtype_bytes DType.fp16 = 2
dtype_bytes DType.bf16 = 2
dtype_bytes DType.int16 = 2
dtype_bytes DType.int8 = 1
dtype_bytes DType.bool = 1

pub record Tensor : Type 0 where
  pub width : ℕ
  pub height : ℕ
  pub dtype : DType

pub data OpType : Type 0 where
  mat_mul pointwise reduction opaque : OpType

pub record Op : Type 0 where
  pub type : OpType
  pub inputs : List ℕ
  pub outputs : List ℕ

-- `outputs[0]`; an operation always has exactly one output.
abbrev pub output : Op → ℕ
output op = get_or op.outputs 0 0

pub record Problem : Type 0 where
  pub tensors : List Tensor
  pub ops : List Op
  pub required_outputs : FlatSet

abbrev pub num_ops : Problem → ℕ
num_ops prob = length prob.ops

abbrev pub num_tensors : Problem → ℕ
num_tensors prob = length prob.tensors
