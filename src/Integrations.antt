-- ===== src/Integrations.antt =====
-- src/toolboundary/integrations: the adapters for agent frameworks and for an external provider.
pub mod ToolGuard
pub mod LangChain
pub mod CrewAi
pub mod Guarantees
pub mod AgentKey
